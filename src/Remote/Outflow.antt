-- ===== src/Remote/Outflow.antt =====
-- Which event ids the operations on the outbox keep (agent/internal/events/outbox.go, hygiene.go).
use ai_control_hud.Prelude.{
  ℕ, ◌+◌, ◌≡◌, refl, String, Bool, true, false, not, Option, List, [], ◌∷◌, ◌++◌, any, any-append,
  select, str_eq, eq_iff, arith, ok, err, Option-cases, Bool-cases, inl, inr, >>=-eq-ok,
}
use ai_control_hud.Prelude.Result.{Result}
use ai_control_hud.Domain.{Time, HudState, TaskSummary, SourceStatus, source_eq}
use ai_control_hud.Events.Outbox.{
  Env, EventRow, Outbox, Io, exec, transact, delete_event, begin, commit, observe, observe_tx,
  baseline_initialized, maintain, delete_row, delete_rows, ack_tx, ack,
}
use ai_control_hud.Events.Emission.Exact.{observe_tx-Appends, observe_tx_first}

abbrev pub queues : String → List EventRow → Bool
queues id = any (λ (r : EventRow). str_eq r.event_id id)

abbrev pub queued : String → Outbox → Bool
queued id db = queues id db.event_outbox

-- The id is one of these.
abbrev pub among : String → List String → Bool
among id = any (λ j. str_eq j id)

append-queues :
    (id : String) (xs ys : List EventRow) → queues id xs ≡ true → queues id (xs ++ ys) ≡ true
append-queues id xs ys h = ground (arith, any-append (λ (r : EventRow). str_eq r.event_id id) xs ys)

observe_tx-keeps :
    (env : Env) (io : Io) (draw : ℕ → Option String) (now : Time) (ts : List TaskSummary)
    (x y : Outbox) (id : String)
    → observe_tx env io draw now ts x ≡ ok y
    → queued id x ≡ true
    → queued id y ≡ true
observe_tx-keeps env io draw now ts x y id h q = elim (Bool-cases (baseline_initialized x)) [
  | inl old ↦
      let p = observe_tx-Appends env io draw now ts x y h old in
      rw (p.rows) (append-queues id x.event_outbox _ q)
  | inr new ↦ let (e, _, _) = observe_tx_first env io draw now ts x y h new in rw e q
]

transact-keeps :
    (r : Result Outbox) (x : Outbox) (id : String)
    → ((y : Outbox) → r ≡ ok y → queued id y ≡ true)
    → queued id x ≡ true
    → queued id (transact r x).0 ≡ true
transact-keeps (ok y) x id h q = h y refl
transact-keeps (err e) x id h q = q

pub observe-keeps :
    {F : Type 0} (env : Env) (io : Io) (draw : ℕ → Option String) (s : HudState F) (now : Time)
    (x : Outbox) (id : String)
    → queued id x ≡ true
    → queued id (observe env io draw s now x).0 ≡ true
unfolding observe
observe-keeps env io draw s now x id q =
    elim (Bool-cases (source_eq s.zcode.health.status SourceStatus.ok)) [
      | inr down ↦ rw down q
      | inl up ↦ elim (Option-cases s.zcode.tasks) [
        | inl absent ↦ rw (up, absent) q
        | inr (ts, present) ↦
            rw (up, present)
              (transact-keeps (observe_tx env io draw now ts x) x id
                (λ y h. observe_tx-keeps env io draw now ts x y id h q) q)
      ]
    ]

pub maintain-events :
    (env : Env) (io : Io) (now : Time) (age : ℕ) (x : Outbox)
    → (maintain env io now age x).0.event_outbox ≡ x.event_outbox
unfolding maintain
maintain-events env io now age x = ground arith

delete_row-keeps :
    (id j : String) (rs : List EventRow)
    → str_eq j id ≡ false
    → queues id rs ≡ true
    → queues id (select (λ (r : EventRow). not (str_eq r.event_id j)) rs) ≡ true
delete_row-keeps id j [] n q = q
delete_row-keeps id j (r ∷ rs) n q =
    ground
      (arith, eq_iff r.event_id j, eq_iff r.event_id id, eq_iff j id, delete_row-keeps id j rs n)

delete_rows-keeps :
    (io : Io) (i : ℕ) (ids : List String) (x y : Outbox) (id : String)
    → delete_rows io i ids x ≡ ok y
    → among id ids ≡ false
    → queued id x ≡ true
    → queued id y ≡ true
unfolding delete_rows delete_row
delete_rows-keeps io i [] x y id h n q = let same : x ≡ y = cc in rw (← same) q
delete_rows-keeps io i (j ∷ ids) x y id h n q =
    let (_, _, k) = >>=-eq-ok (exec io (delete_event i) "ack event") _ h in
    delete_rows-keeps io (i + 1) ids (delete_row j x) y id k (ground arith)
      (delete_row-keeps id j x.event_outbox (ground arith) q)

-- An id leaves the outbox only if it is acknowledged.
pub ack-keeps :
    (io : Io) (ids : List String) (x : Outbox) (id : String)
    → among id ids ≡ false
    → queued id x ≡ true
    → queued id (ack io ids x).0 ≡ true
unfolding ack ack_tx
ack-keeps io [] x id n q = q
ack-keeps io (j ∷ ids) x id n q =
    transact-keeps (ack_tx io (j ∷ ids) x) x id
      (λ y h.
        let (_, _, k) = >>=-eq-ok (exec io begin "begin event ack") _ h in
        let (z, e, m) = >>=-eq-ok (delete_rows io 0 (j ∷ ids) x) _ k in
        let (_, _, r) = >>=-eq-ok (exec io commit "commit event ack") _ m in
        let same : z ≡ y = cc in rw (← same) (delete_rows-keeps io 0 (j ∷ ids) x z id e n q))
      q
