-- ===== src/Events/Hygiene.antt =====
-- What the upkeep of agent/internal/events/hygiene.go leaves as it is, and what `Ack` of outbox.go
-- takes away.
use ai_control_hud.Prelude.{
  ℕ, ◌+◌, ◌-◌, ◌⊎◌, ◌≡◌, refl, sym, ap, ◌∙◌, String, not, Option, some, none, List, [], ◌∷◌, any,
  select, length, str_eq, eq_iff, arith, Table, lookup, ok, err, Error, inl, inr, >>=-eq-ok,
}
use ai_control_hud.Prelude.Result.{Result}
use ai_control_hud.Domain.{Time, TaskSummary}
use ai_control_hud.Events.Outbox.{
  Env, TaskRow, EventRow, Outbox, Io, exec, transact, begin, commit, delete_event,
  baseline_initialized, maintain, compact_table, compact_row, compact_keys, delete_row, delete_rows,
  ack_tx, ack,
}
use ai_control_hud.Events.Emission.Spec.{
  announced, rows_of_task, announce, join, or_nil, status_of, drawn,
}

compact-status :
    (keys : List String) (m : Table TaskRow) (id : String)
    → status_of (lookup id (compact_table keys m)) ≡ status_of (lookup id m)
unfolding compact_table compact_row lookup
compact-status keys [] id = refl
compact-status keys ((k, r) ∷ m) id = ground (arith, compact-status keys m id)

module _ (env : Env) (draw : ℕ → Option String) (now : Time) (a b : Table TaskRow)
    (same : (id : String) → status_of (lookup id a) ≡ status_of (lookup id b)) where
  same_rows :
      (i n : ℕ) (t : TaskSummary)
      → rows_of_task env draw now a i n t ≡ rows_of_task env draw now b i n t
  same_rows i n t =
      ap
        (λ s. elim (announce s t.status) [
          | none ↦ some []
          | some kind ↦ drawn env draw now a n kind t (draw i)
        ])
        (same t.id)

  same_announced :
      (i n : ℕ) (ts : List TaskSummary)
      → announced env draw now a i n ts ≡ announced env draw now b i n ts
  unfolding announced
  same_announced i n [] = refl
  same_announced i n (t ∷ ts) =
      let there = rows_of_task env draw now b i n t in
      ap (λ o. join o (announced env draw now a (i + 1) (n + length (or_nil o)) ts))
        (same_rows i n t)
      ∙ ap (join there) (same_announced (i + 1) (n + length (or_nil there)) ts)

maintain-tasks :
    (env : Env) (io : Io) (at : Time) (age : ℕ) (x : Outbox) (id : String)
    → status_of (lookup id (maintain env io at age x).0.task_state)
      ≡ status_of (lookup id x.task_state)
unfolding maintain
maintain-tasks env io at age x id =
    ground (
      arith,
      compact-status (compact_keys env (env.format (at - age)) x.task_state) x.task_state id,
    )

maintain-rest :
    (env : Env) (io : Io) (at : Time) (age : ℕ) (x : Outbox)
    → ((maintain env io at age x).0.event_outbox ≡ x.event_outbox)
      × ((maintain env io at age x).0.last_seq ≡ x.last_seq)
      × (baseline_initialized (maintain env io at age x).0 ≡ baseline_initialized x)
unfolding maintain baseline_initialized
maintain-rest env io at age x = ground arith

-- `Maintain`, at any time and age and whatever fails, takes no event from the outbox, and any
-- later snapshot is announced by the same rows as without it: forgetting the details of old tasks
-- neither repeats nor loses an event.
pub maintain_unseen :
    (env : Env) (io : Io) (at now : Time) (age : ℕ) (draw : ℕ → Option String)
    (ts : List TaskSummary) (x : Outbox)
    → ((maintain env io at age x).0.event_outbox ≡ x.event_outbox)
      × (announced env draw now
            (maintain env io at age x).0.task_state
            0
            (maintain env io at age x).0.last_seq
            ts
          ≡ announced env draw now x.task_state 0 x.last_seq ts)
      × (baseline_initialized (maintain env io at age x).0 ≡ baseline_initialized x)
maintain_unseen env io at now age draw ts x =
    let (e, k, m) = maintain-rest env io at age x in
    (
      e,
      ap (λ n. announced env draw now (maintain env io at age x).0.task_state 0 n ts) k
          ∙ same_announced env draw now _ x.task_state (maintain-tasks env io at age x) 0 x.last_seq
              ts,
      m,
    )

-- The rows that are not among the ids.
abbrev pub unacknowledged : List String → List EventRow → List EventRow
unacknowledged ids = select (λ r. not (any (λ j. str_eq j r.event_id) ids))

delete-then :
    (j : String) (ids : List String) (rs : List EventRow)
    → unacknowledged ids (select (λ (r : EventRow). not (str_eq r.event_id j)) rs)
      ≡ unacknowledged (j ∷ ids) rs
delete-then j ids [] = refl
delete-then j ids (r ∷ rs) =
    ground (arith, delete-then j ids rs, eq_iff r.event_id j, eq_iff j r.event_id)

all_unacknowledged : (rs : List EventRow) → unacknowledged [] rs ≡ rs
all_unacknowledged [] = refl
all_unacknowledged (r ∷ rs) = ap (λ l. r ∷ l) (all_unacknowledged rs)

delete_rows_lem :
    (io : Io) (i : ℕ) (ids : List String) (x y : Outbox)
    → delete_rows io i ids x ≡ ok y
    → y ≡ record x { event_outbox = unacknowledged ids x.event_outbox }
unfolding delete_rows delete_row
delete_rows_lem io i [] x y h =
    let same : x ≡ y = cc in
    sym same ∙ ap (λ l. record x { event_outbox = l }) (sym (all_unacknowledged x.event_outbox))
delete_rows_lem io i (j ∷ ids) x y h =
    let (_, _, k) = >>=-eq-ok (exec io (delete_event i) "ack event") _ h in
    delete_rows_lem io (i + 1) ids (delete_row j x) y k
    ∙ ap (λ l. record x { event_outbox = l }) (delete-then j ids x.event_outbox)

ack_tx_lem :
    (io : Io) (ids : List String) (x y : Outbox)
    → ack_tx io ids x ≡ ok y
    → y ≡ record x { event_outbox = unacknowledged ids x.event_outbox }
unfolding ack_tx
ack_tx_lem io ids x y h =
    let (_, _, k) = >>=-eq-ok (exec io begin "begin event ack") _ h in
    let (z, e, m) = >>=-eq-ok (delete_rows io 0 ids x) _ k in
    let (_, _, r) = >>=-eq-ok (exec io commit "commit event ack") _ m in
    let same : z ≡ y = cc in sym same ∙ delete_rows_lem io 0 ids x z e

transact_cases :
    (r : Result Outbox) (x z : Outbox)
    → ((y : Outbox) → r ≡ ok y → y ≡ z)
    → (transact r x ≡ (z, none)) ⊎ ((e : Error) × (transact r x ≡ (x, some e)))
transact_cases (ok y) x z h = inl (ap (λ o. (o, none)) (h y refl))
transact_cases (err e) x z h = inr (e, refl)

-- `Ack` either reports no error, and has removed exactly the rows of these ids and kept the order
-- of the others, and the tasks; or it reports an error and has removed nothing.
pub ack_cases :
    (io : Io) (ids : List String) (x : Outbox)
    → (ack io ids x ≡ (record x { event_outbox = unacknowledged ids x.event_outbox }, none))
      ⊎ ((e : Error) × (ack io ids x ≡ (x, some e)))
unfolding ack
ack_cases io [] x =
    inl (ap (λ l. (record x { event_outbox = l }, none)) (sym (all_unacknowledged x.event_outbox)))
ack_cases io (j ∷ ids) x =
    transact_cases (ack_tx io (j ∷ ids) x) x _ (λ y h. ack_tx_lem io (j ∷ ids) x y h)
