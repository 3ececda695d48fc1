-- ===== src/Zcode/Ended.antt =====
-- When `goalTask` of agent/internal/collector/zcode/collector.go shows a Goal, and as what.
use ai_control_hud.Prelude.{
  ap, ℕ, ◌≤◌, ◌+◌, ◌*◌, ◌^◌, ◌≡◌, refl, Bool, true, not, ◌&&◌, Option, none, some, List, [], ◌∷◌,
  All, arith, Bool-cases, inl, inr, ◌⊎◌, subst, if◌then◌else◌, ◌↔◌, sym, ◌∙◌,
}
use ai_control_hud.Domain.{Time, TaskStatus, task_eq}
use ai_control_hud.Zcode.Goal.{Settings, goal_status, live_status, is_fresh}
use ai_control_hud.Zcode.Gathers.{bounded_lem}
use ai_control_hud.Zcode.Values.{bounded, contains_status, all_completed, is_within, age}

-- A moment that lies in the future, or at most `seconds` back.
abbrev pub Within : Time → Option Time → ℕ → Type 0
Within now none seconds = ⊥
Within now (some t) seconds = now ≤ t + seconds * 10 ^ 9

-- The Goal has a heartbeat that is not too old.
abbrev pub Beats : Settings → Time → Option Time → Type 0
Beats c now heartbeat = Within now heartbeat (bounded c.heartbeat_seconds 120 3600)

-- The Goal has ended, and not long ago.
abbrev pub EndedLately : Settings → Time → Option Time → TaskStatus → Type 0
EndedLately c now updated target =
    ((target ≡ TaskStatus.completed) ⊎ (target ≡ TaskStatus.failed))
    × Within now updated (bounded c.recent_terminal_seconds 1800 86400)

abbrev pub Has : TaskStatus → List TaskStatus → Type 0
Has s [] = ⊥
Has s (t ∷ ts) = (t ≡ s) ⊎ Has s ts

abbrev pub AllDone : List TaskStatus → Type 0
AllDone = All (λ s. s ≡ TaskStatus.completed)

-- The status that the todos alone give.
abbrev pub ByTodos : List TaskStatus → TaskStatus → Type 0
ByTodos todos s =
    ((s ≡ TaskStatus.waiting) × Has TaskStatus.waiting todos × ¬ Has TaskStatus.running todos)
    ⊎ ((s ≡ TaskStatus.running) × (Has TaskStatus.running todos ⊎ ¬ Has TaskStatus.waiting todos))

-- The status of a Goal that is alive, by its target: failed and running stand; waiting yields to a
-- running todo; completed stands if no todo is open; all else is left to the todos.
abbrev pub Live : TaskStatus → List TaskStatus → TaskStatus → Type 0
Live TaskStatus.failed todos s = s ≡ TaskStatus.failed
Live TaskStatus.running todos s = s ≡ TaskStatus.running
Live TaskStatus.waiting todos s =
    ((s ≡ TaskStatus.running) × Has TaskStatus.running todos)
    ⊎ ((s ≡ TaskStatus.waiting) × ¬ Has TaskStatus.running todos)
Live TaskStatus.completed todos s =
    ((s ≡ TaskStatus.completed) × AllDone todos) ⊎ (¬ AllDone todos × ByTodos todos s)
Live _ todos s = ByTodos todos s

-- What is shown: a Goal that is alive by its target and its todos, any other by its target, if that
-- is an end that is not old.
abbrev pub Shows :
    Settings → Time → Option Time → Option Time → TaskStatus → List TaskStatus → TaskStatus → Type 0
Shows c now heartbeat updated target todos s =
    (Beats c now heartbeat × Live target todos s)
    ⊎ (¬ Beats c now heartbeat × EndedLately c now updated target × (s ≡ target))

is_fresh_iff :
    (now : Time) (o : Option Time) (seconds : ℕ)
    → seconds ≤ 86400
    → (is_fresh now o seconds ≡ true) ↔ Within now o seconds
unfolding is_fresh is_within age
is_fresh_iff now none seconds h = (λ e. absurd (cc), λ e. elim e [ ])
is_fresh_iff now (some t) seconds h = (λ e. ground arith, λ e. ground arith)

eq_running : (t : TaskStatus) → (task_eq t TaskStatus.running ≡ true) ↔ (t ≡ TaskStatus.running)
eq_running TaskStatus.running = (λ e. refl, λ e. refl)
eq_running TaskStatus.waiting = (λ e. absurd (cc), λ e. absurd (cc))
eq_running TaskStatus.failed = (λ e. absurd (cc), λ e. absurd (cc))
eq_running TaskStatus.completed = (λ e. absurd (cc), λ e. absurd (cc))
eq_running TaskStatus.unknown = (λ e. absurd (cc), λ e. absurd (cc))
eq_running (TaskStatus.other s) = (λ e. absurd (cc), λ e. absurd (cc))

eq_waiting : (t : TaskStatus) → (task_eq t TaskStatus.waiting ≡ true) ↔ (t ≡ TaskStatus.waiting)
eq_waiting TaskStatus.running = (λ e. absurd (cc), λ e. absurd (cc))
eq_waiting TaskStatus.waiting = (λ e. refl, λ e. refl)
eq_waiting TaskStatus.failed = (λ e. absurd (cc), λ e. absurd (cc))
eq_waiting TaskStatus.completed = (λ e. absurd (cc), λ e. absurd (cc))
eq_waiting TaskStatus.unknown = (λ e. absurd (cc), λ e. absurd (cc))
eq_waiting (TaskStatus.other s) = (λ e. absurd (cc), λ e. absurd (cc))

eq_completed :
    (t : TaskStatus) → (task_eq t TaskStatus.completed ≡ true) ↔ (t ≡ TaskStatus.completed)
eq_completed TaskStatus.running = (λ e. absurd (cc), λ e. absurd (cc))
eq_completed TaskStatus.waiting = (λ e. absurd (cc), λ e. absurd (cc))
eq_completed TaskStatus.failed = (λ e. absurd (cc), λ e. absurd (cc))
eq_completed TaskStatus.completed = (λ e. refl, λ e. refl)
eq_completed TaskStatus.unknown = (λ e. absurd (cc), λ e. absurd (cc))
eq_completed (TaskStatus.other s) = (λ e. absurd (cc), λ e. absurd (cc))

contains_iff :
    (s : TaskStatus)
    → ((t : TaskStatus) → (task_eq t s ≡ true) ↔ (t ≡ s))
    → (todos : List TaskStatus) → (contains_status todos s ≡ true) ↔ Has s todos
unfolding contains_status
contains_iff s h [] = (λ e. absurd (cc), λ e. elim e [ ])
contains_iff s h (t ∷ ts) =
    (λ e. ground (arith, h t, contains_iff s h ts), λ e. ground (arith, h t, contains_iff s h ts))

all_completed_iff : (todos : List TaskStatus) → (all_completed todos ≡ true) ↔ AllDone todos
unfolding all_completed
all_completed_iff [] = (λ e. tt, λ e. refl)
all_completed_iff (t ∷ ts) = (
  λ e. ground (arith, eq_completed t, all_completed_iff ts),
  λ e. ground (arith, eq_completed t, all_completed_iff ts),
)

live_status-Live :
    (target : TaskStatus) (todos : List TaskStatus) → Live target todos (live_status target todos)
unfolding live_status
live_status-Live TaskStatus.running todos = refl
live_status-Live TaskStatus.failed todos = refl
live_status-Live TaskStatus.waiting todos =
    ground (arith, contains_iff TaskStatus.running eq_running todos)
live_status-Live TaskStatus.completed todos = ground (
  arith,
  contains_iff TaskStatus.running eq_running todos,
  contains_iff TaskStatus.waiting eq_waiting todos,
  all_completed_iff todos,
)
live_status-Live TaskStatus.unknown todos = ground (
  arith,
  contains_iff TaskStatus.running eq_running todos,
  contains_iff TaskStatus.waiting eq_waiting todos,
)
live_status-Live (TaskStatus.other s) todos = ground (
  arith,
  contains_iff TaskStatus.running eq_running todos,
  contains_iff TaskStatus.waiting eq_waiting todos,
)

Live-unique :
    (target : TaskStatus) (todos : List TaskStatus) (s t : TaskStatus)
    → Live target todos s
    → Live target todos t
    → s ≡ t
Live-unique TaskStatus.running todos s t h k = h ∙ sym k
Live-unique TaskStatus.failed todos s t h k = h ∙ sym k
Live-unique TaskStatus.waiting todos s t h k = ground arith
Live-unique TaskStatus.completed todos s t h k = ground arith
Live-unique TaskStatus.unknown todos s t h k = ground arith
Live-unique (TaskStatus.other o) todos s t h k = ground arith

-- The status of a Goal without a fresh heartbeat.
abbrev if_ended : Bool → TaskStatus → Option TaskStatus
if_ended lately target =
    if not (task_eq target TaskStatus.failed) && not (task_eq target TaskStatus.completed)
    then none
    else if not lately
    then none
    else some target

if_ended_iff :
    (lately : Bool) (target status : TaskStatus)
    → (if_ended lately target ≡ some status) ↔ (
        ((target ≡ TaskStatus.completed) ⊎ (target ≡ TaskStatus.failed))
        × (lately ≡ true)
        × (status ≡ target))
if_ended_iff lately TaskStatus.completed status = (λ h. ground arith, λ h. ground arith)
if_ended_iff lately TaskStatus.failed status = (λ h. ground arith, λ h. ground arith)
if_ended_iff lately TaskStatus.running status = (λ h. ground arith, λ h. ground arith)
if_ended_iff lately TaskStatus.waiting status = (λ h. ground arith, λ h. ground arith)
if_ended_iff lately TaskStatus.unknown status = (λ h. ground arith, λ h. ground arith)
if_ended_iff lately (TaskStatus.other s) status = (λ h. ground arith, λ h. ground arith)

heartbeat_iff :
    (c : Settings) (now : Time) (o : Option Time)
    → (is_fresh now o (bounded c.heartbeat_seconds 120 3600) ≡ true) ↔ Beats c now o
heartbeat_iff c now o =
    let (_, h) = bounded_lem c.heartbeat_seconds 120 3600 (omega arith) (omega arith) in
    is_fresh_iff now o (bounded c.heartbeat_seconds 120 3600) (omega arith)

recent_iff :
    (c : Settings) (now : Time) (o : Option Time)
    → (is_fresh now o (bounded c.recent_terminal_seconds 1800 86400) ≡ true)
      ↔ Within now o (bounded c.recent_terminal_seconds 1800 86400)
recent_iff c now o =
    let (_, h) = bounded_lem c.recent_terminal_seconds 1800 86400 (omega arith) (omega arith) in
    is_fresh_iff now o (bounded c.recent_terminal_seconds 1800 86400) h

-- `goalTask` gives a Goal a status exactly if that is what is to be shown. Of a Goal whose heartbeat
-- is fresh, a target that is failed or running is shown, and one that is completed if no todo is
-- open; any other is running if a todo runs, else waiting if the target or a todo waits, and else
-- running. A Goal without such a heartbeat is shown by its target if that is completed or failed and
-- it was updated lately, and else not at all. This is before `collectGoals` lets the turn log revive
-- an ended Goal and stops at the limit.
pub goal_status_lem :
    (c : Settings) (now : Time) (heartbeat updated : Option Time) (target : TaskStatus)
    (todos : List TaskStatus) (status : TaskStatus)
    → (goal_status c now heartbeat updated target todos ≡ some status)
      ↔ Shows c now heartbeat updated target todos status
unfolding goal_status
goal_status_lem c now heartbeat updated target todos status =
    elim (Bool-cases (is_fresh now heartbeat (bounded c.heartbeat_seconds 120 3600))) [
      | inl fresh ↦
          let beats = (heartbeat_iff c now heartbeat).0 fresh in
          let live = live_status-Live target todos in
          (
            λ h.
                let e : live_status target todos ≡ status = ground arith in
                inl (beats, subst (Live target todos) e live),
            λ h. elim h [
              | inl (_, k) ↦ rw fresh (ap some (Live-unique target todos _ status live k))
              | inr (silent, _, _) ↦ absurd (silent beats)
            ],
          )
      | inr old ↦
          let silent : ¬ Beats c now heartbeat =
            λ b. let fresh = (heartbeat_iff c now heartbeat).1 b in absurd (cc) in
          let shown : goal_status c now heartbeat updated target todos
              ≡ if_ended (is_fresh now updated (bounded c.recent_terminal_seconds 1800 86400))
                  target =
            rw old refl in
          let lately = is_fresh now updated (bounded c.recent_terminal_seconds 1800 86400) in
          let (forth, back) = if_ended_iff lately target status in
          let (recent, recently) = recent_iff c now updated in
          (
            λ h.
                let (ends, is_recent, same) = forth (sym shown ∙ h) in
                inr (silent, (ends, recent is_recent), same),
            λ h. elim h [
              | inl (b, _) ↦ absurd (silent b)
              | inr (_, (ends, within), same) ↦ shown ∙ back (ends, recently within, same)
            ],
          )
    ]
