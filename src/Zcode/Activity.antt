-- ===== src/Zcode/Activity.antt =====
-- What the turn log of agent/internal/collector/zcode/turn_log.go says of a session.
use ai_control_hud.Prelude.{
  ◌≡◌, ◌≢◌, refl, ap, ◌∙◌, String, Bool, true, false, not, ◌&&◌, Option, some, none, List, [], ◌∷◌,
  any, arith, str_eq, eq_iff, lookup, upsert, lookup-upsert, Table, if◌then◌else◌, Bool-cases, inl,
  inr,
}
use ai_control_hud.Domain.{Time}
use ai_control_hud.Zcode.Status.{
  BackgroundTaskState, background_running, background_terminal, background_unknown,
  background_task_status,
}
use ai_control_hud.Zcode.TurnLog.{
  Root, TurnLogState, Note, turn_started, turn_ended, tracking_started, tracking_terminal, enqueued,
  another, session_updated, note, state_or_zero, entry_of, take_entry, read_lines, add_key,
  drop_key, task_updated,
}

-- The entries of one session, and what they make of its state.
abbrev pub add_entry :
    String → Option (String × Note × Time) → List (Note × Time) → List (Note × Time)
add_entry id none rest = rest
add_entry id (some (j, n, now)) rest = if str_eq j id then (n, now) ∷ rest else rest

abbrev pub entries_of : String → List Root → List (Note × Time)
entries_of id [] = []
entries_of id (root ∷ roots) = add_entry id (entry_of root) (entries_of id roots)

abbrev pub replay : List (Note × Time) → TurnLogState → TurnLogState
replay [] s = s
replay ((n, now) ∷ es) s = replay es (note n now s)

abbrev state_of : String → Table TurnLogState → TurnLogState
state_of id states = state_or_zero (lookup id states)

after_upsert :
    (id j : String) (f : TurnLogState → TurnLogState) (states : Table TurnLogState)
    → state_of id (upsert j (λ old. f (state_or_zero old)) states)
      ≡ (if str_eq j id then f (state_of id states) else state_of id states)
after_upsert id j f states =
    ground (arith, lookup-upsert j id (λ old. f (state_or_zero old)) states, eq_iff j id)

-- One line, by what it says.
by_entry :
    (id : String) (o : Option (String × Note × Time)) (states : Table TurnLogState)
    (rest : List (Note × Time))
    → replay rest (state_of id (take_entry o states))
      ≡ replay (add_entry id o rest) (state_of id states)
by_entry id none states rest = refl
by_entry id (some (j, n, now)) states rest = elim (Bool-cases (str_eq j id)) [
  | inl mine ↦ rw mine (
      ap (replay rest) (
        after_upsert id j (note n now) states
        ∙ ap (λ b. if b then note n now (state_of id states) else state_of id states) mine))
  | inr other ↦ rw other (
      ap (replay rest) (
        after_upsert id j (note n now) states
        ∙ ap (λ b. if b then note n now (state_of id states) else state_of id states) other))
]

-- The state of a session is made by its own lines alone, in their order.
pub sessions_apart :
    (id : String) (roots : List Root) (states : Table TurnLogState)
    → state_or_zero (lookup id (read_lines roots states))
      ≡ replay (entries_of id roots) (state_or_zero (lookup id states))
unfolding read_lines
sessions_apart id [] states = refl
sessions_apart id (root ∷ roots) states =
    sessions_apart id roots (take_entry (entry_of root) states)
    ∙ by_entry id (entry_of root) states (entries_of id roots)

-- Whether the last turn that began has not ended.
abbrev pub turn_after : Note → Bool → Bool
turn_after turn_started b = true
turn_after turn_ended b = false
turn_after _ b = b

abbrev pub last_turn : List (Note × Time) → Bool → Bool
last_turn [] b = b
last_turn ((n, _) ∷ es) b = last_turn es (turn_after n b)

-- Whether the last word on a background task is that it runs.
abbrev pub task_after : BackgroundTaskState → Bool → Bool
task_after background_running b = true
task_after background_terminal b = false
task_after background_unknown b = b

abbrev pub told : String → Note → Bool → Bool
told id (session_updated j status) b =
    if str_eq j id && not (str_eq status "")
    then task_after (background_task_status status) b
    else b
told id _ b = b

abbrev pub last_task : String → List (Note × Time) → Bool → Bool
last_task id [] b = b
last_task id ((n, _) ∷ es) b = last_task id es (told id n b)

has-add_key :
    (id k : String) (ks : List String)
    → any (str_eq id) (add_key k ks) ≡ (if str_eq k id then true else any (str_eq id) ks)
has-add_key id k ks = elim (Bool-cases (any (str_eq k) ks)) [
  | inl old ↦ ground (arith, eq_iff k id)
  | inr new ↦ ground (arith, eq_iff k id, eq_iff id k)
]

has-drop_key :
    (id k : String) (ks : List String)
    → any (str_eq id) (drop_key k ks) ≡ (if str_eq k id then false else any (str_eq id) ks)
has-drop_key id k [] = ground arith
has-drop_key id k (j ∷ ks) =
    ground (arith, has-drop_key id k ks, eq_iff k id, eq_iff id k, eq_iff j k, eq_iff id j)

abbrev has_task : String → TurnLogState → Bool
has_task id s = any (str_eq id) s.background_tasks

task_updated_lem :
    (now : Time) (id j : String) (b : BackgroundTaskState) (s : TurnLogState)
    → ((task_updated now j b s).is_open ≡ s.is_open)
      × (has_task id (task_updated now j b s)
          ≡ (if str_eq j id then task_after b (has_task id s) else has_task id s))
task_updated_lem now id j background_running s = (refl, has-add_key id j s.background_tasks)
task_updated_lem now id j background_terminal s = (refl, has-drop_key id j s.background_tasks)
task_updated_lem now id j background_unknown s = ground arith

note_lem :
    (id : String) (n : Note) (now : Time) (s : TurnLogState)
    → id ≢ ""
    → ((note n now s).is_open ≡ turn_after n s.is_open)
      × (has_task id (note n now s) ≡ told id n (has_task id s))
unfolding note
note_lem id turn_started now s h = (refl, refl)
note_lem id turn_ended now s h = (refl, refl)
note_lem id tracking_started now s h = (refl, refl)
note_lem id tracking_terminal now s h = (refl, refl)
note_lem id enqueued now s h = ground arith
note_lem id another now s h = ground arith
note_lem id (session_updated j status) now s h = ground (
  arith,
  task_updated_lem now id j (background_task_status status) s,
  eq_iff j "",
  eq_iff j id,
  eq_iff id "",
)

-- A session's turn is open exactly if the last entry on a turn is its start, and a background
-- task of an id that is not empty is held exactly if the last entry that tells its state says, to
-- `backgroundTaskStatus`, that it runs.
pub replay_lem :
    (id : String) (es : List (Note × Time)) (s : TurnLogState)
    → id ≢ ""
    → ((replay es s).is_open ≡ last_turn es s.is_open)
      × (any (str_eq id) (replay es s).background_tasks
          ≡ last_task id es (any (str_eq id) s.background_tasks))
replay_lem id [] s h = (refl, refl)
replay_lem id ((n, now) ∷ es) s h =
    let (p, q) = note_lem id n now s h in
    let (a, b) = replay_lem id es (note n now s) h in
    (a ∙ ap (last_turn es) p, b ∙ ap (last_task id es) q)
