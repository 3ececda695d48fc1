-- ===== src/Examples/OfReads.antt =====
-- The theorems on the three reads of the ZCode collector and on its settings.
use ai_control_hud.Prelude.{
  str_eq, if◌then◌else◌, ◌↔◌, Bool, ℕ, ◌≡◌, refl, ℤ, pos, String, true, Option, none, some, [], ◌∷◌,
  ok, ◌⊎◌, take, select,
}
use ai_control_hud.Domain.{TaskStatus}
use ai_control_hud.Zcode.Apart.{Returns}
use ai_control_hud.Zcode.History.{collect_task_index-eq}
use ai_control_hud.Zcode.TaskIndex.{task_index_columns}
use ai_control_hud.Zcode.Database.{verify_goal_schema, goal_rows}
use ai_control_hud.Zcode.TaskIndex.{cutoff_ms}
use ai_control_hud.Domain.Spec.{WhenPresent}
use ai_control_hud.Zcode.Collector.{Layout, new_from_environment}
use ai_control_hud.Zcode.Database.{UsageMeta, verify_table_columns}
use ai_control_hud.Zcode.Ended.{goal_status_lem, Shows}
use ai_control_hud.Zcode.Environment.{new_from_environment_lem, AreInRange, HasDatabase}
use ai_control_hud.Zcode.Goal.{Settings, goal_status}
use ai_control_hud.Zcode.Goals.{limit_of, collect_goals, snapshot_of, nothing_found}
use ai_control_hud.Zcode.Loops.{found_all, shown_goals, shown_index}
use ai_control_hud.Zcode.Once.{sessions_once, AreSessions}
use ai_control_hud.Zcode.Sessions.{collect_runtime_sessions_excluding}
use ai_control_hud.Zcode.Tally.{tally}
use ai_control_hud.Zcode.TaskIndex.{
  collect_task_index_excluding, counted_statuses, in_window, index_rows,
}
use ai_control_hud.Zcode.Whole.{collect_goals-eq}
use ai_control_hud.Examples.OfCollector.{
  same_text, clock, session, usage, runtime_db, index_db, usual,
}

sessions_once_example :
    Returns
      (WhenPresent (AreSessions same_text ("s1" ∷ [])))
      (collect_runtime_sessions_excluding same_text usual clock [] runtime_db ("s1" ∷ []))
sessions_once_example = sessions_once same_text usual clock [] runtime_db ("s1" ∷ []) tt

abbrev request : String → String → ℕ → UsageMeta
request id status started = record { usage = usage id status started; meta = session id }

-- The Goal runs again, and its todo is still pending.
goal_status_lem_example :
    (goal_status usual clock (some clock) none TaskStatus.running (TaskStatus.waiting ∷ [])
      ≡ some TaskStatus.running)
    ↔ Shows usual clock
        (some clock)
        none
        TaskStatus.running
        (TaskStatus.waiting ∷ [])
        TaskStatus.running
goal_status_lem_example =
    goal_status_lem usual clock (some clock) none TaskStatus.running (TaskStatus.waiting ∷ [])
      TaskStatus.running

abbrev no_numbers : String → Option ℤ
no_numbers s = if str_eq s "500" then some (pos 500) else none

abbrev variables : String → String
variables name = if str_eq name "HUD_ZCODE_TASK_LIMIT" then " 500 " else ""

abbrev resolved : Option Layout
resolved = some (record { runtime_db = "db.sqlite"; task_index_db = "tasks-index.sqlite" })

abbrev is_index : String → Bool
is_index path = str_eq path "tasks-index.sqlite"

new_from_environment_lem_example :
    (¬ HasDatabase is_index resolved
      × (new_from_environment no_numbers variables is_index resolved ≡ none))
    ⊎ ((c : Settings) × (new_from_environment no_numbers variables is_index resolved ≡ some c)
        × HasDatabase is_index resolved
        × AreInRange c)
new_from_environment_lem_example = new_from_environment_lem no_numbers variables is_index resolved

schema : verify_goal_schema runtime_db ≡ true
unfolding verify_goal_schema
schema = refl

collect_goals-eq_example :
    collect_goals same_text usual clock [] runtime_db
    ≡ ok (
        snapshot_of (
          found_all nothing_found (
            take (limit_of usual) (
              shown_goals same_text usual clock [] runtime_db
                (goal_rows runtime_db (limit_of usual))))))
collect_goals-eq_example =
    collect_goals-eq same_text usual clock [] runtime_db refl schema refl refl

index_schema : verify_table_columns index_db.columns task_index_columns ≡ true
unfolding verify_table_columns
index_schema = refl

collect_task_index-eq_example :
    collect_task_index_excluding same_text usual clock index_db ("s1" ∷ [])
    ≡ ok (record {
      summary = tally (
          counted_statuses
            ("s1" ∷ [])
            (select (in_window (cutoff_ms usual clock)) index_db.counted));
      tasks = take (limit_of usual) (
          shown_index same_text
            (limit_of usual)
            ("s1" ∷ [])
            (index_rows index_db (cutoff_ms usual clock) (limit_of usual)));
      session_ids = [];
    })
collect_task_index-eq_example =
    collect_task_index-eq same_text usual clock index_db ("s1" ∷ []) refl index_schema refl refl
