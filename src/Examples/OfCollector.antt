-- ===== src/Examples/OfCollector.antt =====
-- The theorems on the ZCode collector, at a Goal, a session beside it and a task index.
use ai_control_hud.Prelude.{
  ℕ, ◌+◌, ◌*◌, ◌^◌, ◌≡◌, ◌≢◌, refl, pos, String, true, false, Option, none, some, List, [], ◌∷◌,
  arith, ok, err, Error, message, pos,
}
use ai_control_hud.Domain.{Time, TaskStatus, TaskSummary}
use ai_control_hud.Prelude.Result.{Result}
use ai_control_hud.Zcode.Apart.{Returns}
use ai_control_hud.Zcode.Collected.{collect-IsSnapshot}
use ai_control_hud.Zcode.Collector.{Reading, collect, collect_live, default_settings}
use ai_control_hud.Zcode.Counted.{collect-Covers}
use ai_control_hud.Zcode.Counts.{Snapshot}
use ai_control_hud.Zcode.Database.{
  RuntimeDb, TargetRow, SessionRow, UsageRow, goal_target_columns, goal_todo_columns,
  goal_session_columns, runtime_usage_columns,
}
use ai_control_hud.Zcode.TaskIndex.{IndexDb, IndexRow, task_index_columns}
use ai_control_hud.Prelude.{str_eq, if◌then◌else◌}
use ai_control_hud.Zcode.Database.{verify_goal_schema, goal_rows, usage_rows}
use ai_control_hud.Zcode.Values.{bounded, timestamp, first_non_empty, truncate}
use ai_control_hud.Prelude.{sort_by, lookup, trim_text, size, is_space}
use ai_control_hud.Zcode.Sessions.{active_turns, runtime_session_task}
use ai_control_hud.Zcode.Counts.{snapshot_session_ids, merge_snapshots, has_tasks}
use ai_control_hud.Zcode.Goal.{goal_task, is_fresh}
use ai_control_hud.Zcode.Status.{normalize_status}
use ai_control_hud.Zcode.TaskIndex.{cutoff_ms, index_task}
use ai_control_hud.Prelude.{eq_iff}
use ai_control_hud.Collect.{failed, collect_zcode_once, initial_state}
use ai_control_hud.Collect.History.{
  initial_accepted, Collection, of_zcode, collect_all, remember_all,
}
use ai_control_hud.Collect.Shown.{shown}
use ai_control_hud.Snapshot.{SnapshotStore, get, new}
use ai_control_hud.Zcode.Counts.{no_counts}
use ai_control_hud.Zcode.Feed.{collect-shown, collect-live, outcome_of, StartsWith}
use ai_control_hud.Zcode.Goal.{Settings}
use ai_control_hud.Zcode.Goals.{limit_of}
use ai_control_hud.Zcode.Tally.{Covers}
use ai_control_hud.Zcode.Whole.{IsSnapshot}
use ai_control_hud.Examples.Samples.{whole}

abbrev pub same_text : String → String
same_text s = s

abbrev pub clock : Time
clock = (62135596800 + 1700000000) * 10 ^ 9

abbrev goal : TargetRow
goal = record {
  session_id = "s1";
  objective = some "Port the parser";
  status = some "In Progress";
  time_used_seconds = none;
  time_updated = some (pos 1699999990);
  summary_title = none;
  active_run_started_at = some (pos 1699999000);
  active_run_last_seen_at = some (pos 1699999990);
}

abbrev pub session : String → SessionRow
session id = record {
  id = id;
  directory = some "/home/user/project";
  path = none;
  title = none;
  summary_additions = some (pos 3);
  summary_deletions = none;
}

abbrev pub usage : String → String → ℕ → UsageRow
usage id status started = record {
  session_id = id;
  status = some status;
  started_at = some (pos started);
}

abbrev columns : String → Option (List String)
columns table =
    if str_eq table "session_target"
    then some goal_target_columns
    else if str_eq table "todo"
    then some goal_todo_columns
    else if str_eq table "session"
    then some goal_session_columns
    else some runtime_usage_columns

abbrev pub runtime_db : RuntimeDb
runtime_db = record {
  opens = true;
  columns = columns;
  answers = λ q. true;
  broken_at = none;
  targets = goal ∷ [];
  sessions = session "s1" ∷ session "s2" ∷ [];
  todos = [];
  usages =
      usage "s2" "running" 1699999900
      ∷ usage "s1" "running" 1699999800
      ∷ usage "s2" "done" 1699999700
      ∷ [];
}

abbrev index_row : String → String → IndexRow
index_row id status = record {
  workspace_key = "w1";
  workspace_path = "/home/user/project";
  task_id = id;
  title = " Tidy up ";
  task_status = some status;
  updated_at = some (pos 1699999999000);
  pinned = some (pos 0);
  archived = some (pos 0);
  deleted = some (pos 0);
}

abbrev pub index_db : IndexDb
index_db = record {
  opens = true;
  columns = some task_index_columns;
  lists = true;
  listed = index_row "s1" "running" ∷ index_row "t3" "completed" ∷ [];
  counts = true;
  counted = index_row "s1" "running" ∷ index_row "t3" "completed" ∷ [];
}

abbrev reading : Reading
reading = record {
  runtime_exists = true;
  goals_at = clock;
  goals_turns = [];
  goals_db = runtime_db;
  sessions_at = clock;
  sessions_turns = [];
  sessions_db = runtime_db;
  index_exists = true;
  index_at = clock;
  index_db = index_db;
}

abbrev shape : Result Snapshot → List (String × TaskStatus)
shape (err e) = []
shape (ok s) = labels s.tasks
  where
    labels : List TaskSummary → List (String × TaskStatus)
    labels [] = []
    labels (t ∷ ts) = (t.title, t.status) ∷ labels ts

-- The Goal, the session beside it, and the task of the index that is neither.
at_once :
    shape (collect same_text default_settings reading)
    ≡ ("Port the parser", TaskStatus.running)
      ∷ ("ZCode session", TaskStatus.running)
      ∷ ("Tidy up", TaskStatus.completed)
      ∷ []
unfolding collect verify_goal_schema goal_rows usage_rows bounded timestamp first_non_empty truncate
    sort_by lookup trim_text size is_space active_turns runtime_session_task snapshot_session_ids
    merge_snapshots has_tasks goal_task is_fresh normalize_status cutoff_ms index_task
at_once = refl

abbrev pub usual : Settings
usual = default_settings

collect-IsSnapshot_example : Returns (IsSnapshot (limit_of usual)) (collect same_text usual reading)
collect-IsSnapshot_example = collect-IsSnapshot same_text usual reading tt

collect-Covers_example : Returns (λ s. Covers s.summary s.tasks) (collect same_text usual reading)
collect-Covers_example = collect-Covers same_text usual reading tt refl

abbrev live_of : Result (Option Snapshot) → Snapshot
live_of (ok (some s)) = s
live_of _ = record { summary = no_counts; tasks = []; session_ids = [] }

abbrev live : Snapshot
live = live_of (collect_live same_text usual reading)

there : collect_live same_text usual reading ≡ ok (some live)
unfolding collect_live verify_goal_schema goal_rows usage_rows bounded timestamp first_non_empty
    truncate sort_by lookup trim_text size is_space active_turns runtime_session_task
    snapshot_session_ids merge_snapshots has_tasks goal_task is_fresh normalize_status cutoff_ms
    index_task
there = refl

busy : has_tasks (some live) ≡ true
unfolding collect_live verify_goal_schema goal_rows usage_rows bounded timestamp first_non_empty
    truncate sort_by lookup trim_text size is_space active_turns runtime_session_task
    snapshot_session_ids merge_snapshots has_tasks goal_task is_fresh normalize_status cutoff_ms
    index_task
busy = refl

collect-live_example :
    (s : Snapshot) × (collect same_text usual reading ≡ ok s) × StartsWith live.tasks s.tasks
collect-live_example = collect-live same_text usual reading live there busy

abbrev shut : Reading
shut = record reading { goals_db = record runtime_db { opens = false } }

abbrev unread : Error
unread = message "ZCode live Goal database read failed"

abbrev version_text : String
version_text = "dev"

abbrev no_text : String
no_text = ""

named : version_text ≢ no_text
named e = let same : str_eq version_text no_text ≡ true = (eq_iff version_text no_text).1 e in cc

abbrev initial : SnapshotStore ℕ
initial = record { state = initial_state 5 "dev" true false }

started : new whole (initial_state 5 "dev" true false) ≡ ok initial
started = initial_accepted whole 5 "dev" true false (omega arith) named

abbrev course : List (Collection ℕ)
course = of_zcode 6 (failed "locked") ∷ []

collect-shown_example :
    (get whole (
      collect_zcode_once whole 9
        (outcome_of (collect same_text usual reading))
        (collect_all whole course initial))).zcode
    ≡ shown (remember_all none course) 9 (outcome_of (collect same_text usual reading))
collect-shown_example =
    collect-shown same_text usual whole 5 9 "dev" true false initial course reading (omega arith)
      named started (omega arith, tt, omega arith) tt
