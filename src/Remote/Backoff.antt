-- ===== src/Remote/Backoff.antt =====
-- `backoff` of agent/internal/remote/runtime.go. A duration is its number of nanoseconds, and a
-- product wraps at 2^64; from 2^63 on it would stand for a negative duration.
use Prim.Native.Nat.pow
use ai_control_hud.Prelude.{ℕ, zero, suc, ◌-◌, ◌*◌, ◌/◌, ◌%◌, ◌^◌, leb, ltb, ◌==◌, if◌then◌else◌}

-- The loop, with the rounds that are left.
unfoldable pub double : ℕ → ℕ → ℕ → ℕ
double zero delay maximum = if ltb maximum delay then maximum else delay
double (suc n) delay maximum =
    let rest = double n (delay * 2 % 2 ^ 64) maximum in
    if leb (maximum / 2) delay then maximum else rest

unfoldable pub backoff : ℕ → ℕ → ℕ → ℕ
unfolding double
backoff base failures maximum = if failures == 0 then base else double (failures - 1) base maximum

-- base * 2 ^ n, by doubling.
abbrev pub scaled : ℕ → ℕ → ℕ
scaled base zero = base
scaled base (suc n) = scaled (base * 2) n
