-- ===== src/Zcode/Goal.antt =====
-- `goalTask` of agent/internal/collector/zcode/collector.go: what one Goal row shows, if anything.
use ai_control_hud.Prelude.{
  ℕ, ℤ, String, Bool, false, not, ◌&&◌, ◌||◌, Option, none, some, List, [], ◌∷◌, str_eq, is_none,
  trim_text, if◌then◌else◌,
}
use ai_control_hud.Domain.{Time, TaskStatus, TaskSummary, TaskChanges, task_eq}
use ai_control_hud.Zcode.Status.{normalize_status}
use ai_control_hud.Zcode.Database.{GoalRow, TodoRow}
use ai_control_hud.Zcode.Values.{
  text_or_empty, bounded, truncate, first_non_empty, optional_string, workspace_label, timestamp,
  nonnegative_int, is_within, whole_seconds, contains_status, all_completed, goal_id,
}

-- The settings that the queries and rows are read with.
pub record Settings : Type 0 where
  pub heartbeat_seconds : ℤ
  pub turn_fresh_seconds : ℤ
  pub recent_terminal_seconds : ℤ
  pub task_max_age_seconds : ℤ
  pub task_limit : ℤ

abbrev pub todo_statuses : List TodoRow → List TaskStatus
todo_statuses [] = []
todo_statuses (r ∷ rs) = normalize_status (text_or_empty r.status) ∷ todo_statuses rs

abbrev pub or_time : Option Time → Option Time → Option Time
or_time none u = u
or_time (some t) u = some t

-- `then != nil && ageSeconds(now, *then) <= float64(seconds)`
unfoldable pub is_fresh : Time → Option Time → ℕ → Bool
unfolding is_within
is_fresh now none seconds = false
is_fresh now (some t) seconds = is_within now t seconds

-- The `switch` on a fresh heartbeat.
unfoldable pub live_status : TaskStatus → List TaskStatus → TaskStatus
unfolding contains_status all_completed
live_status target todos =
    if task_eq target TaskStatus.failed
    then TaskStatus.failed
    else if task_eq target TaskStatus.completed && all_completed todos
    then TaskStatus.completed
    else if task_eq target TaskStatus.running
    then TaskStatus.running
    else if contains_status todos TaskStatus.running
    then TaskStatus.running
    else if task_eq target TaskStatus.waiting || contains_status todos TaskStatus.waiting
    then TaskStatus.waiting
    else TaskStatus.running

-- The status to show, or none to show no task.
unfoldable pub goal_status :
    Settings → Time → Option Time → Option Time → TaskStatus → List TaskStatus → Option TaskStatus
unfolding live_status
goal_status c now heartbeat updated target todos =
    if is_fresh now heartbeat (bounded c.heartbeat_seconds 120 3600)
    then some (live_status target todos)
    else if not (task_eq target TaskStatus.failed) && not (task_eq target TaskStatus.completed)
    then none
    else if not (is_fresh now updated (bounded c.recent_terminal_seconds 1800 86400))
    then none
    else some target

-- The first todo of the wanted status with a text.
unfoldable pub first_text : TaskStatus → List TodoRow → Option String
first_text wanted [] = none
first_text wanted (r ∷ rs) =
    let text = truncate (trim_text r.content) 500 in
    let rest = first_text wanted rs in
    if task_eq (normalize_status (text_or_empty r.status)) wanted && not (str_eq text "")
    then some text
    else rest

abbrev pub or_text : Option String → Option String → Option String
or_text none t = t
or_text (some s) t = some s

unfoldable pub goal_activity : List TodoRow → Option String
unfolding first_text
goal_activity todos =
    or_text (first_text TaskStatus.running todos) (first_text TaskStatus.waiting todos)

abbrev pub or_default : String → String → String
or_default title default = if str_eq title "" then default else title

unfoldable pub goal_title : GoalRow → String
goal_title row =
    or_default
      (first_non_empty 500 (
        text_or_empty row.session.title
        ∷ text_or_empty row.target.summary_title
        ∷ text_or_empty row.target.objective
        ∷ []))
      "Goal mode"

unfoldable pub goal_changes : Option ℤ → Option ℤ → Option TaskChanges
goal_changes additions deletions =
    if not (is_none (nonnegative_int additions)) || not (is_none (nonnegative_int deletions))
    then some
        (record { additions = nonnegative_int additions; deletions = nonnegative_int deletions })
    else none

abbrev pub age_of : Time → Option Time → Option ℤ
age_of now none = none
age_of now (some t) = some (whole_seconds now t)

abbrev pub or_seconds : Option ℤ → Option ℤ → Option ℤ
or_seconds none n = n
or_seconds (some m) n = some m

-- `duration`
unfoldable pub goal_duration : Time → Option ℤ → Option Time → Option ℤ
goal_duration now used started = or_seconds (nonnegative_int used) (age_of now started)

module _ (digest : String → String) where
  unfoldable pub goal_summary :
      Time → GoalRow → List TodoRow → Option Time → TaskStatus → TaskSummary
  unfolding goal_title goal_changes goal_duration goal_activity
  goal_summary now row todos updated status = record {
    id = goal_id digest row.target.session_id;
    title = goal_title row;
    workspace = optional_string (
        workspace_label
          (text_or_empty row.session.path ∷ text_or_empty row.session.directory ∷ []));
    status = status;
    started_at = timestamp row.target.active_run_started_at;
    updated_at = updated;
    duration_seconds =
        goal_duration now row.target.time_used_seconds (timestamp row.target.active_run_started_at);
    activity = goal_activity todos;
    changes = goal_changes row.session.summary_additions row.session.summary_deletions;
  }

  unfoldable pub goal_task : Settings → Time → GoalRow → List TodoRow → Option TaskSummary
  unfolding goal_summary goal_status
  goal_task c now row todos =
      let heartbeat = timestamp row.target.active_run_last_seen_at in
      let updated = or_time heartbeat (timestamp row.target.time_updated) in
      elim (goal_status c now heartbeat updated (normalize_status (text_or_empty row.target.status))
        (todo_statuses todos)) [
          | none ↦ none
          | some status ↦ some (goal_summary now row todos updated status)
        ]
