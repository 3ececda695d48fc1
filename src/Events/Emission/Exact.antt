-- ===== src/Events/Emission/Exact.antt =====
-- The outbox after `Observe`.
use mathlib.Core.List.{append-nil}
use ai_control_hud.Prelude.{
  ℕ, ◌+◌, ◌≡◌, refl, ◌∙◌, true, false, Option, none, some, List, [], ◌∷◌, String, lookup, arith, ok,
  Bool-cases, inl, inr, All, >>=-eq-ok, Table,
}
use ai_control_hud.Domain.{Time, TaskStatus, TaskSummary}
use ai_control_hud.Domain.Spec.{Distinct}
use ai_control_hud.Events.Outbox.{
  Env, TaskRow, Outbox, Io, baseline_initialized, observe_task, observe_tasks, observe_tx, save,
  emit_if,
}
use ai_control_hud.Events.Baseline.{
  task_ids, latest, baseline_status, observe_tx_loop, observe_tx-status, latest_own,
}
use ai_control_hud.Events.Emission.Spec.{announce, status_of, rows_of_task, announced}
use ai_control_hud.Events.Emission.Rounds.{Appends, observe_tasks-Appends}

module _ (env : Env) (io : Io) (draw : ℕ → Option String) (now : Time) (ts : List TaskSummary)
    (x y : Outbox) (done : observe_tx env io draw now ts x ≡ ok y) where
  -- With the baseline initialized, a successful observation appends exactly the announced rows:
  -- in the order of the snapshot, one for each task whose status is terminal and differs from the
  -- one in the baseline, keyed on from the highest key.
  pub observe_tx-Appends :
      baseline_initialized x ≡ true
      → Appends (announced env draw now x.task_state 0 x.last_seq ts) x y
  observe_tx-Appends b =
      let (m, e, k) = observe_tx_loop env io draw now ts x y done in
      let p = observe_tasks-Appends env io draw now x.task_state 0 ts x m (rw b at e) in
      let same : y ≡ m = ground arith in rw same p

  observe_task-quiet :
      (i : ℕ) (t : TaskSummary) (p q : Outbox)
      → observe_task env io draw now false x.task_state i t p ≡ ok q
      → (q.event_outbox ≡ p.event_outbox) × (q.last_seq ≡ p.last_seq)
  unfolding observe_task save emit_if
  observe_task-quiet i t p q h = ground arith

  observe_tasks-quiet :
      (i : ℕ) (us : List TaskSummary) (p q : Outbox)
      → observe_tasks env io draw now false x.task_state i us p ≡ ok q
      → (q.event_outbox ≡ p.event_outbox) × (q.last_seq ≡ p.last_seq)
  unfolding observe_tasks
  observe_tasks-quiet i [] p q h = ground arith
  observe_tasks-quiet i (t ∷ us) p q h =
      let (m, e, k) = >>=-eq-ok (observe_task env io draw now false x.task_state i t p) _ h in
      ground (arith, observe_task-quiet i t p m e, observe_tasks-quiet (i + 1) us m q k)

  -- The first observation appends nothing, whatever the snapshot holds, and initializes the
  -- baseline.
  pub observe_tx_first :
      baseline_initialized x ≡ false
      → (y.event_outbox ≡ x.event_outbox)
        × (y.last_seq ≡ x.last_seq)
        × (baseline_initialized y ≡ true)
  unfolding baseline_initialized
  observe_tx_first b =
      let (m, e, k) = observe_tx_loop env io draw now ts x y done in
      ground (arith, observe_tasks-quiet 0 ts x m (rw b at e))

announce_again : (s : TaskStatus) → announce (some s) s ≡ none
announce_again TaskStatus.completed = refl
announce_again _ = refl

module _ (env : Env) (draw : ℕ → Option String) (now : Time) (baseline : Table TaskRow) where
  announced_none :
      (i n : ℕ) (ts : List TaskSummary)
      → All (λ (t : TaskSummary). status_of (lookup t.id baseline) ≡ some t.status) ts
      → announced env draw now baseline i n ts ≡ some []
  unfolding announced
  announced_none i n [] h = refl
  announced_none i n (t ∷ ts) h =
      let quiet : rows_of_task env draw now baseline i n t ≡ some [] =
        ground (arith, announce_again t.status, h.0) in
      ground (arith, quiet, announced_none (i + 1) (n + 0) ts h.1)

All-rewrite :
    (us : List TaskSummary) (s r : String → Option TaskStatus)
    → ((id : String) → r id ≡ s id)
    → All (λ (t : TaskSummary). s t.id ≡ some t.status) us
    → All (λ (t : TaskSummary). r t.id ≡ some t.status) us
All-rewrite [] s r e h = tt
All-rewrite (t ∷ us) s r e h = (e t.id ∙ h.0, All-rewrite us s r e h.1)

-- If no two of the tasks have the same id: a successful observation of them that comes next after a
-- successful observation of them, at whatever times, appends no event.
pub observe_again :
    (env : Env) (io io' : Io) (draw draw' : ℕ → Option String) (now now' : Time)
    (ts : List TaskSummary) (x y z : Outbox)
    → Distinct (task_ids ts)
    → observe_tx env io draw now ts x ≡ ok y
    → observe_tx env io' draw' now' ts y ≡ ok z
    → z.event_outbox ≡ y.event_outbox
observe_again env io io' draw draw' now now' ts x y z d h k =
    elim (Bool-cases (baseline_initialized y)) [
      | inl b ↦
          let known =
            All-rewrite ts (λ id. latest id ts (baseline_status x id)) (baseline_status y)
              (λ id. observe_tx-status env io draw now ts x y id h)
              (latest_own ts (baseline_status x) d) in
          let nothing = announced_none env draw' now' y.task_state 0 y.last_seq ts known in
          let p = observe_tx-Appends env io' draw' now' ts y z k b in
          p.rows ∙ (rw nothing (append-nil y.event_outbox))
      | inr b ↦ (observe_tx_first env io' draw' now' ts y z k b).0
    ]
