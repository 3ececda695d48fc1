-- ===== src/Zcode/Goals.antt =====
-- `collectGoals` of agent/internal/collector/zcode/collector.go. Its second result, which
-- `Collect` drops, is left out.
use ai_control_hud.Prelude.{
  ℕ, pos_part, String, true, false, not, ◌||◌, Option, none, some, List, [], ◌∷◌, ◌++◌, length, leb,
  ◌==◌, lookup, Table, if◌then◌else◌, message, ok, err,
}
use ai_control_hud.Prelude.Result.{Result}
use ai_control_hud.Domain.{Time, TaskStatus, TaskSummary, is_zero, task_eq}
use ai_control_hud.Zcode.TurnLog.{TurnLogState, active}
use ai_control_hud.Zcode.Counts.{Snapshot, summarize_tasks}
use ai_control_hud.Zcode.Database.{
  RuntimeDb, GoalRow, goal_query, todo_query, verify_goal_schema, goal_rows, todos_of,
}
use ai_control_hud.Zcode.Goal.{Settings, goal_task}
use ai_control_hud.Zcode.Values.{bounded, whole_seconds}

abbrev pub limit_of : Settings → ℕ
limit_of c = bounded c.task_limit 20 100

-- Sessions and their tasks, in the order in which they were added.
pub record Found : Type 0 where
  pub tasks : List TaskSummary
  pub session_ids : List String

abbrev pub nothing_found : Found
nothing_found = record { tasks = []; session_ids = [] }

abbrev pub found : Found → String → TaskSummary → Found
found f id task = record { tasks = f.tasks ++ task ∷ []; session_ids = f.session_ids ++ id ∷ [] }

-- `nil` for no tasks.
unfoldable pub snapshot_of : Found → Option Snapshot
snapshot_of f =
    if length f.tasks == 0
    then none
    else some
        (record { summary = summarize_tasks f.tasks; tasks = f.tasks; session_ids = f.session_ids })

-- What an active turn makes of a task that has ended.
unfoldable pub running_since : Time → TurnLogState → TaskSummary → TaskSummary
running_since now s task =
    let kept = record task { status = TaskStatus.running; updated_at = some s.updated_at } in
    if is_zero s.started_at then kept else record kept {
      started_at = some s.started_at;
      duration_seconds = some (whole_seconds now s.started_at);
    }

unfoldable pub by_turn : Settings → Time → Option TurnLogState → TaskSummary → TaskSummary
unfolding running_since
by_turn c now none task = task
by_turn c now (some s) task =
    if active now (pos_part c.turn_fresh_seconds) s then running_since now s task else task

unfoldable pub enliven : Settings → Time → Option TurnLogState → TaskSummary → TaskSummary
unfolding by_turn
enliven c now state task =
    if task_eq task.status TaskStatus.completed || task_eq task.status TaskStatus.failed
    then by_turn c now state task
    else task

module _ (digest : String → String) (c : Settings) (now : Time) (turns : Table TurnLogState) where
  -- One round of the loop, before its `break`.
  unfoldable pub add_goal : RuntimeDb → GoalRow → Found → Found
  unfolding enliven
  add_goal db row f =
      let id = row.target.session_id in
      elim (goal_task digest c now row (todos_of db id)) [
        | none ↦ f
        | some task ↦ found f id (enliven c now (lookup id turns) task)
      ]

  unfoldable pub gather_goals : RuntimeDb → ℕ → List GoalRow → Found → Found
  unfolding add_goal
  gather_goals db limit [] f = f
  gather_goals db limit (row ∷ rows) f =
      let g = add_goal db row f in
      elim (leb limit (length g.tasks)) [ true ↦ g | false ↦ gather_goals db limit rows g ]

  unfoldable pub some_goals : RuntimeDb → List GoalRow → Result (Option Snapshot)
  some_goals db [] = ok none
  some_goals db (row ∷ rows) =
      if not (db.answers todo_query)
      then err (message "ZCode live Goal database read failed")
      else ok (snapshot_of (gather_goals db (limit_of c) (row ∷ rows) nothing_found))

  unfoldable pub collect_goals : RuntimeDb → Result (Option Snapshot)
  unfolding gather_goals some_goals snapshot_of
  collect_goals db =
      if not db.opens
      then err (message "ZCode live Goal database read failed")
      else if not (verify_goal_schema db)
      then ok none
      else if not (db.answers goal_query)
      then err (message "ZCode live Goal database read failed")
      else some_goals db (goal_rows db (limit_of c))
