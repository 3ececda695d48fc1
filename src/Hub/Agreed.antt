-- ===== src/Hub/Agreed.antt =====
-- What `RetentionPolicyFromConfig` (agent/internal/hub/retention.go) makes of a long retention.
use ai_control_hud.Prelude.{ℕ, pos, ◌*◌, ◌<◌, ◌≤◌, ◌≡◌, ap, ◌∙◌, arith, message, err}
use ai_control_hud.Prelude.Result.{Result}
use ai_control_hud.Hub.Config.{Retention, policy_of, as_duration, nat_of}
use ai_control_hud.Hub.Retention.{day, validate_policy}

passes : (n : ℕ) → 106751 < n → n ≤ 213503 → as_duration (n * day) ≡ 0
passes n a b = ground arith

-- The check of a policy whose age is not known yet.
aged_check : ℕ → ℕ → ℕ → Result (Unit {0})
aged_check low high age =
    validate_policy
      (record { max_age = age; min_events = low; max_events = high; batch_size = 1000 })

-- With a retention of 106752 to 213503 days the age wraps to a negative duration, and the policy is
-- refused for it.
pub days_overflow :
    (r : Retention) (n : ℕ)
    → r.days ≡ pos n
    → 106751 < n
    → n ≤ 213503
    → validate_policy (policy_of r)
      ≡ err (message "event retention max age must be at least 24 hours")
unfolding policy_of validate_policy aged_check
days_overflow r n d a b =
    let z : as_duration (nat_of r.days * day) ≡ 0 =
      ap (λ x. as_duration (nat_of x * day)) d ∙ passes n a b in
    ap (aged_check (nat_of r.minimum) (nat_of r.maximum)) z
