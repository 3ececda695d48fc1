-- ===== src/Zcode/TurnLog.antt =====
-- The loop over the lines in `readTurnStates` of agent/internal/collector/zcode/turn_log.go, and
-- `active`. Reading the files and decoding JSON come from outside: a line is what the decoder
-- gives of it.
use ai_control_hud.Prelude.{
  ℕ, ◌+◌, ◌-◌, ◌*◌, ◌^◌, String, Bool, true, false, not, ◌&&◌, ◌||◌, Option, none, some, List, [],
  ◌∷◌, select, length, ltb, leb, ◌==◌, str_eq, any, Table, upsert, if◌then◌else◌,
}
use ai_control_hud.Domain.{Time, is_zero, after}
use ai_control_hud.Zcode.Status.{
  plain, is_one_of, BackgroundTaskState, background_running, background_terminal,
  background_unknown, background_task_status,
}

-- A JSON object: what `rawString` gives of a key, "" for none, and what `parseTurnLogTimestamp`
-- gives of its "timestamp".
pub record Object : Type 0 where
  pub text : String → String
  pub timestamp : Option Time

-- A line's object, with the objects under "payload" and "context" if they are some.
pub record Root : Type 0 where
  pub own : Object
  pub payload : Option Object
  pub context : Option Object

-- `if value := …; value != "" { return value }`
abbrev pub or_else : String → String → String
or_else value rest = if str_eq value "" then rest else value

abbrev pub text_in : Option Object → String → String
text_in none key = ""
text_in (some o) key = o.text key

unfoldable pub nested_string : Root → String → String
nested_string root key = or_else (text_in root.payload key) (text_in root.context key)

-- The first of two keys, in the object and then in those within it.
abbrev first_of : Root → String → String → String
first_of root k j = or_else (root.own.text k) (
    or_else (root.own.text j) (
      or_else (text_in root.payload k) (
        or_else (text_in root.payload j)
          (or_else (text_in root.context k) (text_in root.context j)))))

unfoldable pub evidence_event_name : Root → String
evidence_event_name root = first_of root "event" "type"

unfoldable pub log_session_id : Root → String
log_session_id root = first_of root "sessionId" "session_id"

abbrev pub stamp_in : Option Object → Option Time
stamp_in none = none
stamp_in (some o) = o.timestamp

abbrev pub first_stamp : Option Time → Option Time → Option Time
first_stamp (some t) rest = some t
first_stamp none rest = rest

unfoldable pub log_timestamp : Root → Option Time
log_timestamp root =
    first_stamp root.own.timestamp (first_stamp (stamp_in root.payload) (stamp_in root.context))

-- `BackgroundTasks` is the list of its keys.
pub record TurnLogState : Type 0 where
  pub is_open : Bool
  pub started_at : Time
  pub updated_at : Time
  pub background_tasks : List String
  pub background_track_count : ℕ

-- The zero value.
abbrev pub no_turn : TurnLogState
no_turn = record {
  is_open = false;
  started_at = 0;
  updated_at = 0;
  background_tasks = [];
  background_track_count = 0;
}

-- state.Open || len(state.BackgroundTasks) > 0 || state.BackgroundTrackCount > 0
abbrev pub is_busy : TurnLogState → Bool
is_busy s = s.is_open || ltb 0 (length s.background_tasks) || ltb 0 s.background_track_count

abbrev pub add_key : String → List String → List String
add_key k ks = if any (str_eq k) ks then ks else k ∷ ks

abbrev pub drop_key : String → List String → List String
drop_key k = select (λ j. not (str_eq j k))

-- The cases of the `switch eventName`.
pub data Note : Type 0 where
  turn_started turn_ended tracking_started tracking_terminal enqueued another : Note
  session_updated : String → String → Note

unfoldable pub note_of : List ℕ → Root → Note
unfolding nested_string
note_of name root =
    if is_one_of ("turn.started" ∷ []) name
    then turn_started
    else if is_one_of ("turn.completed" ∷ "turn.failed" ∷ "turn.cancelled" ∷ "turn.canceled" ∷ [])
        name
    then turn_ended
    else if is_one_of ("session.updated" ∷ []) name
    then session_updated (nested_string root "taskId") (nested_string root "status")
    else if is_one_of ("background_task.tracking.started" ∷ []) name
    then tracking_started
    else if is_one_of ("background_task.tracking.terminal" ∷ []) name
    then tracking_terminal
    else if is_one_of
        ("background_task.notification.enqueued" ∷ "background_task.notification.runtime_enqueued"
          ∷ [])
        name
    then enqueued
    else another

abbrev pub begun : TurnLogState → Time → Time
begun s now = if not (is_busy s) || is_zero s.started_at then now else s.started_at

abbrev pub touch : Time → TurnLogState → TurnLogState
touch now s = if is_busy s then record s { updated_at = now } else s

-- What `session.updated` does, by `backgroundTaskStatus`.
abbrev pub task_updated : Time → String → BackgroundTaskState → TurnLogState → TurnLogState
task_updated now id background_running s = record s {
  started_at = if is_busy s then s.started_at else now;
  background_tasks = add_key id s.background_tasks;
  updated_at = now;
}
task_updated now id background_terminal s = record s {
  background_tasks = drop_key id s.background_tasks;
  updated_at = now;
}
task_updated now id background_unknown s = s

unfoldable pub note : Note → Time → TurnLogState → TurnLogState
note turn_started now s = record s { is_open = true; started_at = begun s now; updated_at = now }
note turn_ended now s = record s { is_open = false; updated_at = now }
note (session_updated id status) now s =
    if not (str_eq id "") && not (str_eq status "")
    then task_updated now id (background_task_status status) s
    else touch now s
note tracking_started now s = record s {
  background_track_count =
      if ltb s.background_track_count 1024
      then s.background_track_count + 1
      else s.background_track_count;
  started_at = begun s now;
  updated_at = now;
}
note tracking_terminal now s = record s {
  background_track_count = s.background_track_count - 1;
  updated_at = now;
}
note enqueued now s = touch now s
note another now s =
    if is_busy s && (is_zero s.updated_at || after now s.updated_at)
    then record s { updated_at = now }
    else s

abbrev pub state_or_zero : Option TurnLogState → TurnLogState
state_or_zero none = no_turn
state_or_zero (some s) = s

-- What a line says, and of which session: none for a line that is passed over.
unfoldable pub entry_of : Root → Option (String × Note × Time)
unfolding note_of
entry_of root = elim (log_timestamp root) [
  | none ↦ none
  | some now ↦
      let id = log_session_id root in
      let name = plain (evidence_event_name root) in
      if str_eq id "" || is_one_of ("" ∷ []) name then none else some (id, note_of name root, now)
]

abbrev pub take_entry : Option (String × Note × Time) → Table TurnLogState → Table TurnLogState
take_entry none states = states
take_entry (some (id, n, now)) states = upsert id (λ old. note n now (state_or_zero old)) states

unfoldable pub read_lines : List Root → Table TurnLogState → Table TurnLogState
unfolding entry_of note
read_lines [] states = states
read_lines (root ∷ roots) states = read_lines roots (take_entry (entry_of root) states)

-- `bounded` and `ageSeconds`, which is 0 for a time to come. A number of seconds below 1 is 0 here.
unfoldable pub active : Time → ℕ → TurnLogState → Bool
active now fresh_seconds s =
    let fresh =
      if fresh_seconds == 0
      then 1800
      else if ltb 14400 fresh_seconds
      then 14400
      else fresh_seconds in
    if not (is_busy s) || is_zero s.updated_at
    then false
    else leb (now - s.updated_at) (fresh * 10 ^ 9)
