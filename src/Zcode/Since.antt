-- ===== src/Zcode/Since.antt =====
-- Since when a session is busy, as the turn log of agent/internal/collector/zcode/turn_log.go has it.
use ai_control_hud.Prelude.{
  ◌<◌, ◌≤◌, ◌≡◌, refl, sym, ap, ◌∙◌, String, Bool, true, false, not, Option, some, none, List, [],
  ◌∷◌, All, arith, str_eq, if◌then◌else◌, Bool-cases, inl, inr, length, length-select,
  count-le-length,
}
use ai_control_hud.Domain.{Time}
use ai_control_hud.Zcode.Status.{
  BackgroundTaskState, background_running, background_terminal, background_unknown,
  background_task_status,
}
use ai_control_hud.Zcode.TurnLog.{
  TurnLogState, no_turn, is_busy, Note, turn_started, turn_ended, tracking_started,
  tracking_terminal, enqueued, another, session_updated, note, drop_key, task_updated,
}
use ai_control_hud.Zcode.Activity.{replay}

-- The time of the entry that made the session busy, from its state and that time before it.
abbrev pub since_after : Time → Bool → Bool → Option Time → Option Time
since_after now true true t = t
since_after now false true t = some now
since_after now _ false t = none

abbrev pub busy_since : List (Note × Time) → TurnLogState → Option Time → Option Time
busy_since [] s t = t
busy_since ((n, now) ∷ es) s t =
    busy_since es (note n now s) (since_after now (is_busy s) (is_busy (note n now s)) t)

-- While a session is busy, its start is the time since when it is.
record Tells (s : TurnLogState) (t : Option Time) : Type 0 where
  busy : is_busy s ≡ true → (t ≡ some s.started_at) × (0 < s.started_at)
  idle : is_busy s ≡ false → t ≡ none

length-drop_key : (k : String) (ks : List String) → length (drop_key k ks) ≤ length ks
length-drop_key k ks =
    omega
      (arith, length-select (λ j. not (str_eq j k)) ks, count-le-length (λ j. not (str_eq j k)) ks)

task_start :
    (now : Time) (id : String) (b : BackgroundTaskState) (s : TurnLogState)
    → is_busy (task_updated now id b s) ≡ true
    → (task_updated now id b s).started_at ≡ (if is_busy s then s.started_at else now)
task_start now id background_running s h = refl
task_start now id background_terminal s h = ground (arith, length-drop_key id s.background_tasks)
task_start now id background_unknown s h = ground arith

-- What an entry does to the start.
start_after :
    (n : Note) (now : Time) (s : TurnLogState)
    → 0 < now
    → (is_busy s ≡ true → 0 < s.started_at)
    → is_busy (note n now s) ≡ true
    → (note n now s).started_at ≡ (if is_busy s then s.started_at else now)
unfolding note
start_after turn_started now s p q h = ground arith
start_after turn_ended now s p q h = ground arith
start_after (session_updated j status) now s p q h =
    ground (arith, task_start now j (background_task_status status) s)
start_after tracking_started now s p q h = ground arith
start_after tracking_terminal now s p q h = ground arith
start_after enqueued now s p q h = ground arith
start_after another now s p q h = ground arith

idle_after : (now : Time) (t : Option Time) (b : Bool) → since_after now b false t ≡ none
idle_after now t true = refl
idle_after now t false = refl

Tells-note :
    (n : Note) (now : Time) (s : TurnLogState) (t : Option Time)
    → 0 < now
    → Tells s t
    → Tells (note n now s) (since_after now (is_busy s) (is_busy (note n now s)) t)
Tells-note n now s t p h = record {
  busy = λ b.
      let e = start_after n now s p (λ c. (h.busy c).1) b in
      elim (Bool-cases (is_busy s)) [
        | inl was ↦
            let (x, y) = h.busy was in
            let f : (note n now s).started_at ≡ s.started_at =
              e ∙ ap (λ c. if c then s.started_at else now) was in
            (
              ap (λ c. since_after now c (is_busy (note n now s)) t) was
                  ∙ ap (λ c. since_after now true c t) b
                  ∙ x
                  ∙ ap some (sym f),
              rw f y,
            )
        | inr was ↦
            let f : (note n now s).started_at ≡ now =
              e ∙ ap (λ c. if c then s.started_at else now) was in
            (
              ap (λ c. since_after now c (is_busy (note n now s)) t) was
                  ∙ ap (λ c. since_after now false c t) b
                  ∙ ap some (sym f),
              rw f p,
            )
      ];
  idle = λ b. ap (λ c. since_after now (is_busy s) c t) b ∙ idle_after now t (is_busy s);
}

Tells-replay :
    (es : List (Note × Time)) (s : TurnLogState) (t : Option Time)
    → All (λ (e : Note × Time). 0 < e.1) es
    → Tells s t
    → Tells (replay es s) (busy_since es s t)
Tells-replay [] s t a h = h
Tells-replay ((n, now) ∷ es) s t (p, a) h =
    Tells-replay es (note n now s) _ a (Tells-note n now s t p h)

-- With no entry at the zero time: a session that is busy after its entries has as its start the
-- time of the entry that made it busy after it was idle last.
pub started_at_lem :
    (es : List (Note × Time))
    → All (λ (e : Note × Time). 0 < e.1) es
    → is_busy (replay es no_turn) ≡ true
    → busy_since es no_turn none ≡ some (replay es no_turn).started_at
started_at_lem es a b =
    let (p, _) =
      (Tells-replay es no_turn none a (record { busy = λ c. absurd (cc); idle = λ c. refl })).busy
        b in
    p
