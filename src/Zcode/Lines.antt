-- ===== src/Zcode/Lines.antt =====
-- What the lines of the turn log of agent/internal/collector/zcode/turn_log.go say of a session.
use ai_control_hud.Prelude.{
  ◌≡◌, ◌≢◌, refl, ap, ◌∙◌, sym, String, Bool, true, false, not, ◌&&◌, ◌||◌, some, none, List, [],
  ◌∷◌, any, arith, str_eq, eq_iff, lookup, lookup-upsert, Table, if◌then◌else◌, Bool-cases, inl,
  inr, is_none, ℕ, ◌⊎◌, Option-cases, codes,
}
use ai_control_hud.Domain.{Time}
use ai_control_hud.Zcode.Status.{plain, is_one_of, same_codes, background_task_status}
use ai_control_hud.Zcode.TurnLog.{
  Root, TurnLogState, Note, note, note_of, no_turn, state_or_zero, entry_of, take_entry, read_lines,
  log_timestamp, log_session_id, evidence_event_name, nested_string, session_updated,
}
use ai_control_hud.Zcode.Activity.{
  entries_of, add_entry, sessions_apart, turn_after, last_turn, task_after, told, last_task,
  replay_lem,
}

-- The line names the session, has a time, and has the name of an event.
abbrev pub names : String → Root → Bool
names id root =
    not (str_eq id "")
    && str_eq (log_session_id root) id
    && not (is_none (log_timestamp root))
    && not (is_one_of ("" ∷ []) (plain (evidence_event_name root)))

abbrev pub event_is : List String → Root → Bool
event_is words root = is_one_of words (plain (evidence_event_name root))

-- The session's turn after the line, from before it: a start opens it, and an end of any sort closes
-- it.
abbrev pub turn_by : Root → Bool → Bool
turn_by root b =
    if event_is ("turn.started" ∷ []) root
    then true
    else not
        (event_is ("turn.completed" ∷ "turn.failed" ∷ "turn.cancelled" ∷ "turn.canceled" ∷ []) root)
      && b

abbrev pub turn_of : String → List Root → Bool → Bool
turn_of id [] b = b
turn_of id (root ∷ roots) b = turn_of id roots (if names id root then turn_by root b else b)

-- Whether the background task runs after the line, from before it.
abbrev pub task_by : String → Root → Bool → Bool
task_by task root b =
    if event_is ("session.updated" ∷ []) root
      && str_eq (nested_string root "taskId") task
      && not (str_eq (nested_string root "status") "")
    then task_after (background_task_status (nested_string root "status")) b
    else b

abbrev pub task_of : String → String → List Root → Bool → Bool
task_of id task [] b = b
task_of id task (root ∷ roots) b =
    task_of id task roots (if names id root then task_by task root b else b)

same_codes_eq : (l m : List ℕ) → same_codes l m ≡ true → l ≡ m
unfolding same_codes
same_codes_eq [] [] h = refl
same_codes_eq (a ∷ l) [] h = absurd (cc)
same_codes_eq [] (b ∷ m) h = absurd (cc)
same_codes_eq (a ∷ l) (b ∷ m) h = ground (arith, same_codes_eq l m)

abbrev name_of : Root → List ℕ
name_of root = plain (evidence_event_name root)

updated_name :
    (root : Root)
    → event_is ("session.updated" ∷ []) root ≡ true
    → codes "session.updated" ≡ name_of root
unfolding is_one_of
updated_name root h = same_codes_eq (codes "session.updated") (name_of root) (ground arith)

updates_no_turn :
    (root : Root)
    → event_is ("session.updated" ∷ []) root ≡ true
    → note_of (name_of root) root
      ≡ session_updated (nested_string root "taskId") (nested_string root "status")
unfolding note_of is_one_of same_codes
updates_no_turn root h = rw (sym (updated_name root h)) refl

by_turn : (root : Root) (b : Bool) → turn_after (note_of (name_of root) root) b ≡ turn_by root b
unfolding note_of
by_turn root b = ground arith

no_update :
    (task : String) (root : Root) (b : Bool)
    → event_is ("session.updated" ∷ []) root ≡ false
    → told task (note_of (name_of root) root) b ≡ b
unfolding note_of
no_update task root b h = ground arith

by_task :
    (task : String) (root : Root) (b : Bool)
    → told task (note_of (name_of root) root) b ≡ task_by task root b
by_task task root b = elim (Bool-cases (event_is ("session.updated" ∷ []) root)) [
  | inl is_update ↦ rw (updates_no_turn root is_update, is_update) refl
  | inr other ↦ rw other (no_update task root b other)
]

-- What is made of a line, by whether it names the session.
heard :
    (id : String) (root : Root)
    → ((names id root ≡ true)
        × ((now : Time) × (entry_of root ≡ some (id, note_of (name_of root) root, now))))
      ⊎ ((names id root ≡ false)
          × ((entry_of root ≡ none)
              ⊎ ((j : String) × (n : Note) × (now : Time) × (entry_of root ≡ some (j, n, now))
                  × (str_eq j id ≡ false))))
unfolding entry_of
heard id root =
    let session = log_session_id root in
    let passed = str_eq session "" || is_one_of ("" ∷ []) (name_of root) in
    elim (Option-cases (log_timestamp root)) [
      | inl no_time ↦ inr (ground arith, inl (rw (entry_of, no_time) refl))
      | inr (now, at) ↦ elim (Bool-cases passed) [
        | inl skip ↦ inr (ground (arith, eq_iff session id), inl (rw (entry_of, at, skip) refl))
        | inr said ↦ elim (Bool-cases (str_eq session id)) [
          | inl mine ↦
              let same : session ≡ id = (eq_iff session id).0 mine in
              inl (
                ground arith,
                (
                  now,
                  rw (entry_of, at, said)
                      (ap (λ j. some (j, note_of (name_of root) root, now)) same),
                ),
              )
          | inr other ↦ inr (
            ground arith,
            inr (session, note_of (name_of root) root, now, rw (entry_of, at, said) refl, other),
          )
        ]
      ]
    ]

own : (id : String) → str_eq id id ≡ true
own id = (eq_iff id id).1 refl

passed_over :
    (id : String) (root : Root) (rest : List (Note × Time))
    → names id root ≡ false
    → add_entry id (entry_of root) rest ≡ rest
passed_over id root rest h = elim (heard id root) [
  | inl (named, _) ↦ absurd (cc)
  | inr (_, inl nothing) ↦ rw nothing refl
  | inr (_, inr (j, n, now, is, other)) ↦ rw (is, other) refl
]

turns_heard :
    (id : String) (roots : List Root) (b : Bool)
    → last_turn (entries_of id roots) b ≡ turn_of id roots b
turns_heard id [] b = refl
turns_heard id (root ∷ roots) b = elim (heard id root) [
  | inl (named, (now, is)) ↦
      rw (is, own id, named)
        (ap (last_turn (entries_of id roots)) (by_turn root b)
          ∙ turns_heard id roots (turn_by root b))
  | inr (unnamed, _) ↦
      rw (passed_over id root (entries_of id roots) unnamed, unnamed) (turns_heard id roots b)
]

tasks_heard :
    (id task : String) (roots : List Root) (b : Bool)
    → last_task task (entries_of id roots) b ≡ task_of id task roots b
tasks_heard id task [] b = refl
tasks_heard id task (root ∷ roots) b = elim (heard id root) [
  | inl (named, (now, is)) ↦
      rw (is, own id, named)
        (ap (last_task task (entries_of id roots)) (by_task task root b)
          ∙ tasks_heard id task roots (task_by task root b))
  | inr (unnamed, _) ↦
      rw (passed_over id root (entries_of id roots) unnamed, unnamed) (tasks_heard id task roots b)
]

kept_line :
    (id : String) (root : Root) (states : Table TurnLogState)
    → is_none (lookup id (take_entry (entry_of root) states))
      ≡ (not (names id root) && is_none (lookup id states))
kept_line id root states = elim (heard id root) [
  | inl (named, (now, is)) ↦
      rw (is, named)
        (ground (
          arith,
          own id,
          lookup-upsert id id (λ old. note (note_of (name_of root) root) now (state_or_zero old))
              states,
        ))
  | inr (unnamed, inl nothing) ↦ rw (nothing, unnamed) refl
  | inr (unnamed, inr (j, n, now, is, other)) ↦
      rw (is, unnamed)
        (ground
          (arith, eq_iff j id, lookup-upsert j id (λ old. note n now (state_or_zero old)) states))
]

kept_lines :
    (id : String) (roots : List Root) (states : Table TurnLogState)
    → is_none (lookup id (read_lines roots states))
      ≡ (not (any (names id) roots) && is_none (lookup id states))
unfolding read_lines lookup
kept_lines id [] states = ground arith
kept_lines id (root ∷ roots) states =
    ground
      (arith, kept_lines id roots (take_entry (entry_of root) states), kept_line id root states)

-- After the lines of the log, read from nothing: there is a state for a session exactly if a line
-- names it, with a time and an event; its turn is open exactly if the last of its lines that
-- starts or ends a turn starts one; and it holds a background task, of an id that is not empty,
-- exactly if the last of its lines that tells the state of this task says, to
-- `backgroundTaskStatus`, that it runs.
pub read_lines_lem :
    (id task : String) (roots : List Root)
    → task ≢ ""
    → (is_none (lookup id (read_lines roots [])) ≡ not (any (names id) roots))
      × ((state_or_zero (lookup id (read_lines roots []))).is_open ≡ turn_of id roots false)
      × (any (str_eq task) (state_or_zero (lookup id (read_lines roots []))).background_tasks
          ≡ task_of id task roots false)
unfolding lookup
read_lines_lem id task roots h =
    let (turn, tasks) = replay_lem task (entries_of id roots) no_turn h in
    rw (sessions_apart id roots []) (
      ground (arith, kept_lines id roots []),
      turn ∙ turns_heard id roots false,
      tasks ∙ tasks_heard id task roots false,
    )
