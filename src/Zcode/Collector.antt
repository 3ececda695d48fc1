-- ===== src/Zcode/Collector.antt =====
-- `Collect` and `NewFromEnvironment` of agent/internal/collector/zcode/collector.go.
use ai_control_hud.Prelude.{
  ℤ, pos, String, Bool, not, ◌&&◌, Option, none, some, Table, if◌then◌else◌, message, ok, err,
}
use ai_control_hud.Prelude.Result.{Result}
use ai_control_hud.Domain.{Time}
use ai_control_hud.Zcode.TurnLog.{TurnLogState}
use ai_control_hud.Zcode.Counts.{
  Snapshot, merge_snapshots, merge_two, snapshot_session_ids, has_tasks,
}
use ai_control_hud.Zcode.Database.{RuntimeDb}
use ai_control_hud.Zcode.Goal.{Settings}
use ai_control_hud.Zcode.Goals.{collect_goals, limit_of}
use ai_control_hud.Zcode.Sessions.{collect_runtime_sessions_excluding}
use ai_control_hud.Zcode.TaskIndex.{IndexDb, collect_task_index_excluding}
use ai_control_hud.Zcode.Values.{bounded_positive_env}

-- What one call of `Collect` finds: which of the two files are there, and at each of the three
-- reads the time, the database and what `readTurnStates` gives.
pub record Reading : Type 0 where
  pub runtime_exists : Bool
  pub goals_at : Time
  pub goals_turns : Table TurnLogState
  pub goals_db : RuntimeDb
  pub sessions_at : Time
  pub sessions_turns : Table TurnLogState
  pub sessions_db : RuntimeDb
  pub index_exists : Bool
  pub index_at : Time
  pub index_db : IndexDb

-- New
abbrev pub default_settings : Settings
default_settings = record {
  heartbeat_seconds = pos 120;
  turn_fresh_seconds = pos 1800;
  recent_terminal_seconds = pos 1800;
  task_max_age_seconds = pos 86400;
  task_limit = pos 20;
}

-- The settings that `env`, which gives the text of a variable, asks for; `atoi` is strconv.Atoi.
abbrev pub settings_from : (String → Option ℤ) → (String → String) → Settings
settings_from atoi env = record {
  heartbeat_seconds =
      pos (bounded_positive_env atoi (env "HUD_ZCODE_GOAL_HEARTBEAT_SECONDS") 120 3600);
  turn_fresh_seconds =
      pos (bounded_positive_env atoi (env "HUD_ZCODE_TURN_FRESH_SECONDS") 1800 14400);
  recent_terminal_seconds =
      pos (bounded_positive_env atoi (env "HUD_ZCODE_GOAL_RECENT_TERMINAL_SECONDS") 1800 86400);
  task_max_age_seconds =
      pos (bounded_positive_env atoi (env "HUD_ZCODE_TASK_MAX_AGE_SECONDS") 86400 2592000);
  task_limit = pos (bounded_positive_env atoi (env "HUD_ZCODE_TASK_LIMIT") 20 100);
}

-- The databases that `zcodepath.Resolve` names.
pub record Layout : Type 0 where
  pub runtime_db : String
  pub task_index_db : String

-- The settings of the collector that is made, or none. The layout is what `zcodepath.Resolve`
-- gives, none for its error, and `exists` is `fileExists`.
unfoldable pub new_from_environment :
    (String → Option ℤ) → (String → String) → (String → Bool) → Option Layout → Option Settings
new_from_environment atoi env exists none = none
new_from_environment atoi env exists (some layout) =
    if not (exists layout.runtime_db) && not (exists layout.task_index_db)
    then none
    else some (settings_from atoi env)

module _ (digest : String → String) (c : Settings) where
  -- Goals and the sessions beside them, from what the second read gives.
  unfoldable pub with_sessions :
      Option Snapshot → Result (Option Snapshot) → Result (Option Snapshot)
  with_sessions goals (err e) = if has_tasks goals then ok goals else err e
  with_sessions goals (ok runtime) = ok (merge_snapshots goals runtime (limit_of c))

  unfoldable pub after_goals : Reading → Result (Option Snapshot) → Result (Option Snapshot)
  unfolding with_sessions collect_runtime_sessions_excluding
  after_goals r (err e) = err e
  after_goals r (ok goals) = with_sessions goals (
      collect_runtime_sessions_excluding digest c r.sessions_at r.sessions_turns r.sessions_db
        (snapshot_session_ids goals))

  -- `primary`
  unfoldable pub collect_live : Reading → Result (Option Snapshot)
  unfolding collect_goals after_goals
  collect_live r =
      if r.runtime_exists
      then after_goals r (collect_goals digest c r.goals_at r.goals_turns r.goals_db)
      else ok none

  -- A history that cannot be read leaves the live snapshot as it is.
  unfoldable pub live_and : Snapshot → Result Snapshot → Snapshot
  live_and live (err e) = live
  live_and live (ok history) = merge_two live history (limit_of c)

  unfoldable pub with_history : Option Snapshot → Result Snapshot → Result Snapshot
  unfolding live_and
  with_history none history = history
  with_history (some live) history =
      if has_tasks (some live) then ok (live_and live history) else history

  unfoldable pub without_history : Option Snapshot → Result Snapshot
  without_history none = err (message "ZCode task sources are unavailable")
  without_history (some live) =
      if has_tasks (some live) then ok live else err (message "ZCode task sources are unavailable")

  unfoldable pub collect : Reading → Result Snapshot
  unfolding collect_live with_history without_history collect_task_index_excluding
  collect r = elim (collect_live r) [
    | err e ↦ err e
    | ok primary ↦
        if r.index_exists
        then with_history primary (
            collect_task_index_excluding digest c r.index_at r.index_db
              (snapshot_session_ids primary))
        else without_history primary
  ]
