-- ===== src/Zcode/Gathers.antt =====
-- What the three reads of agent/internal/collector/zcode gather can be shown, and is no more than
-- the limit.
use ai_control_hud.Prelude.{
  ℕ, ◌≤◌, ◌<◌, ◌≡◌, ◌≢◌, refl, ℤ, pos, negsuc, String, true, Option, none, some, List, [], ◌∷◌, All,
  All-append, map, lookup, Table, arith, Option-cases, inl, inr, subst, is_space, led-trim_text,
  trim_text-led, trim_text, size, ◌⊎◌,
}
use ai_control_hud.Domain.{Time, TaskStatus, TaskSummary}
use ai_control_hud.Domain.Spec.{IsTask, IsKnownTask, WhenPresent}
use ai_control_hud.Zcode.Status.{normalize_status, normalize_status-IsKnown}
use ai_control_hud.Zcode.TurnLog.{TurnLogState}
use ai_control_hud.Zcode.Database.{RuntimeDb, SessionRow, GoalRow, TodoRow, todos_of}
use ai_control_hud.Zcode.Goal.{
  Settings, goal_task, goal_status, live_status, goal_summary, goal_title, todo_statuses, or_time,
}
use ai_control_hud.Zcode.Goals.{enliven, by_turn, running_since, limit_of}
use ai_control_hud.Zcode.Sessions.{runtime_session_task, session_title}
use ai_control_hud.Zcode.TaskIndex.{IndexRow, index_task}
use ai_control_hud.Zcode.Loops.{shown_goals, shown_by}
use ai_control_hud.Zcode.Shows.{
  begins, begins-ne, truncate-begins, first_non_empty-begins, or_default-begins, goal_id-ne,
  task_id_hash-ne, goal_duration-Nonnegative, whole_seconds-Nonnegative,
}
use ai_control_hud.Zcode.Values.{bounded, text_or_empty, timestamp, first_non_empty, truncate}

-- The limit is at least 1 and at most 100, whatever is configured.
pub bounded_lem :
    (n : ℤ) (fallback maximum : ℕ)
    → 0 < fallback
    → fallback ≤ maximum
    → (0 < bounded n fallback maximum) × (bounded n fallback maximum ≤ maximum)
unfolding bounded
bounded_lem (negsuc n) fallback maximum h k = (h, k)
bounded_lem (pos n) fallback maximum h k = (ground arith, ground arith)

pub limit-pos : (c : Settings) → 0 < limit_of c
limit-pos c = let (p, _) = bounded_lem c.task_limit 20 100 (omega arith) (omega arith) in p

live_status-IsKnown :
    (target : TaskStatus) (todos : List TaskStatus) → IsKnownTask (live_status target todos)
unfolding live_status
live_status-IsKnown target todos = ground arith

goal_status-IsKnown :
    (c : Settings) (now : Time) (heartbeat updated : Option Time) (target : TaskStatus)
    (todos : List TaskStatus)
    → IsKnownTask target
    → WhenPresent IsKnownTask (goal_status c now heartbeat updated target todos)
unfolding goal_status
goal_status-IsKnown c now heartbeat updated target todos h =
    ground (arith, live_status-IsKnown target todos)

goal_title-ne : (row : GoalRow) → goal_title row ≢ ""
unfolding goal_title is_space
goal_title-ne row = begins-ne _ (
    or_default-begins
      (first_non_empty 500 (
        text_or_empty row.session.title
        ∷ text_or_empty row.target.summary_title
        ∷ text_or_empty row.target.objective
        ∷ []))
      "Goal mode" (first_non_empty-begins _) refl)

goal_task-IsTask :
    (digest : String → String) (c : Settings) (now : Time) (row : GoalRow) (todos : List TodoRow)
    → WhenPresent IsTask (goal_task digest c now row todos)
unfolding goal_task goal_summary
goal_task-IsTask digest c now row todos =
    let heartbeat = timestamp row.target.active_run_last_seen_at in
    let updated = or_time heartbeat (timestamp row.target.time_updated) in
    let target = normalize_status (text_or_empty row.target.status) in
    let known =
      goal_status-IsKnown c now heartbeat updated target (todo_statuses todos)
        (normalize_status-IsKnown (text_or_empty row.target.status)) in
    elim (Option-cases (goal_status c now heartbeat updated target (todo_statuses todos))) [
      | inl hidden ↦ rw (goal_task, hidden) tt
      | inr (status, shows) ↦
          rw (goal_task, shows)
            (
              goal_id-ne digest row.target.session_id,
              goal_title-ne row,
              subst (WhenPresent IsKnownTask) shows known,
              goal_duration-Nonnegative now row.target.time_used_seconds
                  (timestamp row.target.active_run_started_at),
            )
    ]

enliven-IsTask :
    (c : Settings) (now : Time) (s : Option TurnLogState) (t : TaskSummary)
    → IsTask t
    → IsTask (enliven c now s t)
unfolding enliven by_turn running_since
enliven-IsTask c now none t h = ground arith
enliven-IsTask c now (some s) t h = ground (arith, whole_seconds-Nonnegative now s.started_at)

pub shown_goals-IsTask :
    (digest : String → String) (c : Settings) (now : Time) (turns : Table TurnLogState)
    (db : RuntimeDb) (rows : List GoalRow)
    → All (λ (e : String × TaskSummary). IsTask e.1) (shown_goals digest c now turns db rows)
shown_goals-IsTask digest c now turns db [] = tt
shown_goals-IsTask digest c now turns db (row ∷ rows) =
    All-append (λ (e : String × TaskSummary). IsTask e.1)
      (shown_by digest c now turns db row
        (goal_task digest c now row (todos_of db row.target.session_id)))
      (shown_goals digest c now turns db rows)
      (one (goal_task digest c now row (todos_of db row.target.session_id))
        (goal_task-IsTask digest c now row (todos_of db row.target.session_id)))
      (shown_goals-IsTask digest c now turns db rows)
  where
    one :
        (o : Option TaskSummary)
        → WhenPresent IsTask o
        → All (λ (e : String × TaskSummary). IsTask e.1) (shown_by digest c now turns db row o)
    one none h = tt
    one (some t) h = (enliven-IsTask c now (lookup row.target.session_id turns) t h, tt)

session_title-begins :
    (title : String) → begins (session_title (first_non_empty 500 (title ∷ []))) ≡ true
unfolding is_space
session_title-begins title =
    or_default-begins (first_non_empty 500 (title ∷ [])) "ZCode session"
      (first_non_empty-begins (title ∷ [])) refl

pub runtime_session_task-IsTask :
    (digest : String → String) (id : String) (meta : SessionRow) (status : TaskStatus)
    (now started updated : Time)
    → IsKnownTask status
    → IsTask (runtime_session_task digest id meta status now started updated)
unfolding runtime_session_task
runtime_session_task-IsTask digest id meta status now started updated h = (
  task_id_hash-ne digest "runtime-session" id,
  begins-ne _
      (truncate-begins _ (led-trim_text _ (session_title-begins (text_or_empty meta.title)))),
  h,
  whole_seconds-Nonnegative now started,
)

blank_or_begins :
    {s : String}
    → (s ≡ "") ⊎ (begins s ≡ true)
    → (truncate s 500 ≡ "") ⊎ (begins (truncate s 500) ≡ true)
unfolding truncate size
blank_or_begins (inl e) = inl (rw e refl)
blank_or_begins {s} (inr b) = inr (truncate-begins s b)

index_task-IsTask : (digest : String → String) (r : IndexRow) → IsTask (index_task digest r)
unfolding index_task is_space
index_task-IsTask digest r = (
  task_id_hash-ne digest r.workspace_key r.task_id,
  begins-ne _ (
      or_default-begins (truncate (trim_text r.title) 500) "(untitled task)"
        (blank_or_begins (trim_text-led r.title)) refl),
  normalize_status-IsKnown (text_or_empty r.task_status),
  tt,
)

pub shown_index-IsTask :
    (digest : String → String) (exclude : List String) (rows : List IndexRow)
    → All IsTask (map (index_task digest) rows)
shown_index-IsTask digest exclude [] = tt
shown_index-IsTask digest exclude (r ∷ rs) =
    (index_task-IsTask digest r, shown_index-IsTask digest exclude rs)
