-- ===== src/Events/Baseline.antt =====
-- What `Observe` of agent/internal/events/outbox.go writes to the task baseline.
use ai_control_hud.Prelude.{
  ℕ, ◌+◌, ◌≡◌, refl, ◌∙◌, ap, String, Bool, true, false, ◌&&◌, Option, some, List, [], ◌∷◌, Table,
  lookup, lookup-upsert, str_eq, eq_iff, arith, ok, >>=-eq-ok, Result-cases, All, ◌≢◌, inl, inr,
  if◌then◌else◌,
}
use ai_control_hud.Domain.{Time, TaskStatus, TaskSummary}
use ai_control_hud.Domain.Spec.{Distinct}
use ai_control_hud.Events.Outbox.{
  Env, TaskRow, Outbox, Io, baseline_initialized, emit, emit_if, append_event, is_transition, save,
  row_of, observe_task, observe_tasks, observe_tx,
}
use ai_control_hud.Events.Emission.Spec.{status_of}

abbrev pub task_ids : List TaskSummary → List String
task_ids [] = []
task_ids (t ∷ ts) = t.id ∷ task_ids ts

-- The last status that a snapshot gives a task, or else the one it had.
abbrev pub latest : String → List TaskSummary → Option TaskStatus → Option TaskStatus
latest id [] s = s
latest id (t ∷ ts) s = latest id ts (if str_eq t.id id then some t.status else s)

abbrev pub baseline_status : Outbox → String → Option TaskStatus
baseline_status db id = status_of (lookup id db.task_state)

status-save :
    (env : Env) (now : Time) (t : TaskSummary) (db : Outbox) (id : String)
    → baseline_status (save env now t db) id
      ≡ (if str_eq t.id id then some t.status else baseline_status db id)
unfolding save row_of
status-save env now t db id =
    ground (arith, lookup-upsert t.id id (λ _. row_of env now t) db.task_state)

module _ (env : Env) (io : Io) (draw : ℕ → Option String) (now : Time) (initialized : Bool)
    (baseline : Table TaskRow) where
  emit-task_state :
      (i : ℕ) (t : TaskSummary) (x y : Outbox)
      → emit env io draw now i t x ≡ ok y
      → y.task_state ≡ x.task_state
  unfolding emit append_event
  emit-task_state i t x y h = ground arith

  emit_if-task_state :
      (b : Bool) (i : ℕ) (t : TaskSummary) (x y : Outbox)
      → emit_if b env io draw now i t x ≡ ok y
      → y.task_state ≡ x.task_state
  unfolding emit_if
  emit_if-task_state true i t x y h = emit-task_state i t x y h
  emit_if-task_state false i t x y h = ground arith

  observe_task-status :
      (i : ℕ) (t : TaskSummary) (x y : Outbox) (id : String)
      → observe_task env io draw now initialized baseline i t x ≡ ok y
      → baseline_status y id ≡ (if str_eq t.id id then some t.status else baseline_status x id)
  unfolding observe_task
  observe_task-status i t x y id h =
      let (mid, e, k) =
        >>=-eq-ok (emit_if (initialized && is_transition baseline t) env io draw now i t x) _ h in
      let saved : y ≡ save env now t mid = ground arith in
      rw saved (rw (status-save env now t mid id, emit_if-task_state _ i t x mid e))

  observe_tasks-status :
      (i : ℕ) (ts : List TaskSummary) (x y : Outbox) (id : String)
      → observe_tasks env io draw now initialized baseline i ts x ≡ ok y
      → baseline_status y id ≡ latest id ts (baseline_status x id)
  unfolding observe_tasks
  observe_tasks-status i [] x y id h = ground arith
  observe_tasks-status i (t ∷ ts) x y id h =
      let (mid, e, k) = >>=-eq-ok (observe_task env io draw now initialized baseline i t x) _ h in
      observe_tasks-status (i + 1) ts mid y id k
      ∙ ap (latest id ts) (observe_task-status i t x mid id e)

-- The loop of a transaction that commits, and what is done after it.
pub observe_tx_loop :
    (env : Env) (io : Io) (draw : ℕ → Option String) (now : Time) (ts : List TaskSummary)
    (x y : Outbox)
    → observe_tx env io draw now ts x ≡ ok y
    → (m : Outbox) × (observe_tasks env io draw now (baseline_initialized x) x.task_state 0 ts x
        ≡ ok m)
      × (y ≡ (if baseline_initialized x then m else record m { meta = some "1" }))
unfolding observe_tx
observe_tx_loop env io draw now ts x y h =
    elim (Result-cases
      (observe_tasks env io draw now (baseline_initialized x) x.task_state 0 ts x)) [
        | inl (m, e) ↦ (m, e, ground arith)
        | inr (c, e) ↦ absurd (ground arith)
      ]

-- A successful observation gives every task of the snapshot its last status there, and leaves
-- every other task as it was.
pub observe_tx-status :
    (env : Env) (io : Io) (draw : ℕ → Option String) (now : Time) (ts : List TaskSummary)
    (x y : Outbox) (id : String)
    → observe_tx env io draw now ts x ≡ ok y
    → baseline_status y id ≡ latest id ts (baseline_status x id)
observe_tx-status env io draw now ts x y id h =
    let (m, e, k) = observe_tx_loop env io draw now ts x y h in
    let same : y.task_state ≡ m.task_state = ground arith in
    rw same
      (observe_tasks-status env io draw now (baseline_initialized x) x.task_state 0 ts x m id e)

absent-latest :
    (id : String) (ts : List TaskSummary) (s : Option TaskStatus)
    → All (λ j. id ≢ j) (task_ids ts)
    → latest id ts s ≡ s
absent-latest id [] s h = refl
absent-latest id (t ∷ ts) s h = ground (arith, eq_iff t.id id, absent-latest id ts s)

-- With no id twice in the snapshot, each task's last status is its own.
pub latest_own :
    (ts : List TaskSummary) (s : String → Option TaskStatus)
    → Distinct (task_ids ts)
    → All (λ (t : TaskSummary). latest t.id ts (s t.id) ≡ some t.status) ts
latest_own [] s h = tt
latest_own (t ∷ ts) s h = (
  ground (arith, eq_iff t.id t.id, absent-latest t.id ts (some t.status)),
  latest_own ts (λ id. if str_eq t.id id then some t.status else s id) h.1,
)
