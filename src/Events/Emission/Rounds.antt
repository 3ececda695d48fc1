-- ===== src/Events/Emission/Rounds.antt =====
-- One round of the loop of `Observe`, and the loop.
use mathlib.Core.List.{append-nil, append_assoc}
use ai_control_hud.Prelude.{
  ℕ, ◌+◌, ◌≡◌, refl, ◌∙◌, sym, ap, subst, ◌++◌, String, true, false, Option, none, some, List, [],
  ◌∷◌, Table, length, length-append, arith, ok, ◌>>◌, >>=-eq-ok, Bool-cases, inl, inr,
}
use ai_control_hud.Domain.{Time, TaskSummary}
use ai_control_hud.Events.Outbox.{
  Env, TaskRow, EventRow, Outbox, Io, emit, emit_if, event_for_task, append_event, is_transition,
  observe_task, observe_tasks, save, exec, upsert_task,
}
use ai_control_hud.Events.Emission.Spec.{rows_of_task, or_nil, join, announced}

-- `after` has the rows `new` more than `before`, keyed on from its highest key, and all of them
-- could be made.
pub record Appends (new : Option (List EventRow)) (before after : Outbox) : Type 0 where
  pub made : new ≡ some (or_nil new)
  pub rows : after.event_outbox ≡ before.event_outbox ++ or_nil new
  pub keys : after.last_seq ≡ before.last_seq + length (or_nil new)

Appends-join :
    (a b : Option (List EventRow)) (x y z : Outbox)
    → Appends a x y
    → Appends b y z
    → Appends (join a b) x z
Appends-join none b x y z p q = cc (p.made)
Appends-join (some l) none x y z p q = cc (q.made)
Appends-join (some l) (some m) x y z p q = record {
  made = refl;
  rows = q.rows ∙ ap (λ r. r ++ m) p.rows ∙ append_assoc x.event_outbox l m;
  keys = omega (arith, p.keys, q.keys, length-append l m);
}

module _ (env : Env) (io : Io) (draw : ℕ → Option String) (now : Time)
    (baseline : Table TaskRow) where
  emit-Appends :
      (i : ℕ) (t : TaskSummary) (db db' : Outbox)
      → is_transition baseline t ≡ true
      → emit env io draw now i t db ≡ ok db'
      → Appends (rows_of_task env draw now baseline i db.last_seq t) db db'
  unfolding emit event_for_task append_event is_transition
  emit-Appends i t db db' tr h = record {
    made = ground arith;
    rows = ground arith;
    keys = ground arith;
  }

  quiet :
      (i n : ℕ) (t : TaskSummary)
      → is_transition baseline t ≡ false
      → rows_of_task env draw now baseline i n t ≡ some []
  unfolding is_transition
  quiet i n t h = ground arith

  quiet-Appends :
      (i : ℕ) (t : TaskSummary) (db : Outbox)
      → is_transition baseline t ≡ false
      → Appends (rows_of_task env draw now baseline i db.last_seq t) db db
  quiet-Appends i t db h =
      rw (quiet i db.last_seq t h)
        (record { made = refl; rows = sym (append-nil db.event_outbox); keys = omega arith })

  save-Appends :
      (t : TaskSummary) (new : Option (List EventRow)) (x y : Outbox)
      → Appends new x y
      → Appends new x (save env now t y)
  unfolding save
  save-Appends t new x y p = record { made = p.made; rows = p.rows; keys = p.keys }

  saved-Appends :
      (i : ℕ) (t : TaskSummary) (new : Option (List EventRow)) (x y z : Outbox)
      → (exec io (upsert_task i) "persist task event baseline" >> ok (save env now t y)) ≡ ok z
      → Appends new x y
      → Appends new x z
  saved-Appends i t new x y z h p =
      let e : save env now t y ≡ z = ground arith in
      subst (Appends new x) e (save-Appends t new x y p)

  observe_task-Appends :
      (i : ℕ) (t : TaskSummary) (db db' : Outbox)
      → observe_task env io draw now true baseline i t db ≡ ok db'
      → Appends (rows_of_task env draw now baseline i db.last_seq t) db db'
  unfolding observe_task emit_if
  observe_task-Appends i t db db' h = elim (Bool-cases (is_transition baseline t)) [
    | inl tr ↦
        let (mid, e, k) = >>=-eq-ok (emit env io draw now i t db) _ (rw tr at h) in
        saved-Appends i t _ db mid db' k (emit-Appends i t db mid tr e)
    | inr q ↦ saved-Appends i t _ db db db' (rw q at h) (quiet-Appends i t db q)
  ]

  pub observe_tasks-Appends :
      (i : ℕ) (ts : List TaskSummary) (db db' : Outbox)
      → observe_tasks env io draw now true baseline i ts db ≡ ok db'
      → Appends (announced env draw now baseline i db.last_seq ts) db db'
  unfolding observe_tasks announced
  observe_tasks-Appends i [] db db' h =
      let e : db ≡ db' = cc in
      subst (Appends (some []) db) e
        (record { made = refl; rows = sym (append-nil db.event_outbox); keys = omega arith })
  observe_tasks-Appends i (t ∷ ts) db db' h =
      let (mid, e, k) = >>=-eq-ok (observe_task env io draw now true baseline i t db) _ h in
      let here = observe_task-Appends i t db mid e in
      let there = observe_tasks-Appends (i + 1) ts mid db' k in
      Appends-join _ _ db mid db' here (rw here.keys at there)
