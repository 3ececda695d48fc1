-- ===== src/Remote/Landing.antt =====
-- An answer of 2xx to a batch means that the hub has its events (agent/internal/hub/server.go).
use ai_control_hud.Prelude.{
  ℕ, ◌<◌, ◌≤◌, ◌≡◌, refl, sym, ap, ◌∙◌, subst, String, true, Option, some, List, [], ◌∷◌, All,
  arith, ok, Error, Result-cases, inl, inr,
}
use ai_control_hud.Prelude.Result.{Result}
use ai_control_hud.Domain.{Time, Floating}
use ai_control_hud.Events.{Event}
use ai_control_hud.Hub.Models.{EventBatch, validate_batch}
use ai_control_hud.Hub.Store.{HubEnv, Db, Io, has_event, record_events}
use ai_control_hud.Hub.Server.{
  Server, Request, Response, EventReceipt, refused, written, admit, after_checks, accept_events,
  handle_agent_events, decode_request,
}
use ai_control_hud.Hub.Log.Redelivery.{record_events_lem}
use ai_control_hud.Remote.Client.{event_upload, HttpRequest}
use ai_control_hud.Remote.Delivery.{event_ids}
use ai_control_hud.Remote.Wire.{
  Wire, Fate, lost, unanswered, answered, Link, status, dispatch, meet,
}
use ai_control_hud.Remote.Grows.{accept_events-db}

-- These ids are in the log.
abbrev pub Lists : Db → List String → Type 0
Lists db = All (λ id. has_event id db.events ≡ true)

Lists-ids :
    (db : Db) (es : List Event)
    → All (λ (e : Event). has_event e.event_id db.events ≡ true) es
    → Lists db (event_ids es)
Lists-ids db [] a = tt
Lists-ids db (e ∷ es) (h, a) = (h, Lists-ids db es a)

module _ {F : Type 0} (fl : Floating F) (env : HubEnv F) where
  recorded-Lists :
      (io : Io) (a : String) (sent : Time) (batch : List Event) (received : Time) (db : Db)
      (o : Db × Result (ℕ × ℕ)) (x y : ℕ)
      → record_events env io a sent batch received db ≡ o
      → o.1 ≡ ok (x, y)
      → Lists (record_events env io a sent batch received db).0 (event_ids batch)
  recorded-Lists io a sent batch received db (db', r) x y h k =
      let whole : record_events env io a sent batch received db ≡ (db', ok (x, y)) =
        h ∙ ap (λ t. (db', t)) k in
      let (_, _, _, _, all) = record_events_lem env io a sent received batch db db' x y whole in
      subst (λ (p : Db × Result (ℕ × ℕ)). Lists p.0 (event_ids batch)) (sym h)
        (Lists-ids db' batch all)

  accepted_result :
      (io : Io) (now : Time) (s : Server F) (b : EventBatch)
      → status (accept_events fl env io now s b).1 < 300
      → (x : ℕ) × (y : ℕ) × ((record_events env io b.agent_id b.sent_at b.events now s.db).1
          ≡ ok (x, y))
  unfolding accept_events
  accepted_result io now s b h =
      elim (Result-cases (record_events env io b.agent_id b.sent_at b.events now s.db).1) [
        | inl ((x, y), e) ↦ (x, y, e)
        | inr (c, e) ↦ absurd (ground arith)
      ]

  accepted-Lists :
      (io : Io) (now : Time) (s : Server F) (b : EventBatch)
      → status (accept_events fl env io now s b).1 < 300
      → Lists (accept_events fl env io now s b).0.db (event_ids b.events)
  accepted-Lists io now s b h =
      let (x, y, e) = accepted_result io now s b h in
      subst (λ db. Lists db (event_ids b.events)) (sym (accept_events-db fl env io now s b))
        (recorded-Lists io b.agent_id b.sent_at b.events now s.db _ x y refl e)

  admitted :
      {A : Type 0} (check : A → Result (Unit {0})) (s : Server F) (r : Request A) (a : A)
      → admit check s r ≡ written a
      → (r.body.first ≡ some a) × (check a ≡ ok tt)
  unfolding admit decode_request
  admitted check s r a h = ground arith

  admit_refuses :
      {A : Type 0} (check : A → Result (Unit {0})) (s : Server F) (r : Request A) (code : ℕ)
      (e : Error)
      → admit check s r ≡ refused code e
      → 300 ≤ code
  unfolding admit
  admit_refuses check s r code e h = ground arith

  -- What a handled batch has gone through.
  record Taken (r : Request EventBatch) (o : Server F × Response EventReceipt) : Type 0 where
    batch : EventBatch
    read : r.body.first ≡ some batch
    valid : validate_batch batch ≡ ok tt
    held : Lists o.0.db (event_ids batch.events)

  checked-Taken :
      (io : Io) (now : Time) (s : Server F) (r : Request EventBatch) (m : Response EventBatch)
      → admit validate_batch s r ≡ m
      → status (after_checks s m (accept_events fl env io now s)).1 < 300
      → Taken r (after_checks s m (accept_events fl env io now s))
  checked-Taken io now s r (refused code e) a h =
      absurd (omega (arith, admit_refuses validate_batch s r code e a))
  checked-Taken io now s r (written b) a h =
      let (p, q) = admitted validate_batch s r b a in
      record { batch = b; read = p; valid = q; held = accepted-Lists io now s b h }

  handled-Taken :
      (io : Io) (now : Time) (s : Server F) (r : Request EventBatch)
      → status (handle_agent_events fl env io now s r).1 < 300
      → Taken r (handle_agent_events fl env io now s r)
  unfolding handle_agent_events
  handled-Taken io now s r h = checked-Taken io now s r _ refl h

  -- A batch that was answered with a 2xx: as the hub read it, it is valid and in the log.
  pub record Delivered (wire : Wire F) (b : EventBatch) (db : Db) : Type 0 where
    pub batch : EventBatch
    pub read : (wire.carry_events b).first ≡ some batch
    pub valid : validate_batch batch ≡ ok tt
    pub held : Lists db (event_ids batch.events)

  module _ (wire : Wire F) where
    dispatch-Delivered :
        (io : Io) (now : Time) (s : Server F) (signed : String) (b : EventBatch)
        → (dispatch fl env wire io now s signed (event_upload b)).1 < 300
        → Delivered wire b (dispatch fl env wire io now s signed (event_upload b)).0.db
    unfolding dispatch
    dispatch-Delivered io now s signed b h =
        let t =
          handled-Taken io now s
            (record { is_post = true; authorization = signed; body = wire.carry_events b }) h in
        record { batch = t.batch; read = t.read; valid = t.valid; held = t.held }

    pub answered-Delivered :
        (b : EventBatch) (q : HttpRequest F) (l l' : Link F) (fates : List Fate) (code : ℕ)
        → q.payload ≡ event_upload b
        → meet fl env wire q l fates ≡ (l', some code)
        → code < 300
        → Delivered wire b l'.server.db
    unfolding meet
    answered-Delivered b q l l' [] code p h k = absurd (cc)
    answered-Delivered b q l l' (lost ∷ fs) code p h k = absurd (cc)
    answered-Delivered b q l l' (unanswered io now ∷ fs) code p h k = absurd (cc)
    answered-Delivered b q l l' (answered io now ∷ fs) code p h k =
        let o = dispatch fl env wire io now l.server q.authorization in
        let same : (o q.payload).1 ≡ code = cc in
        let code_eq : (o (event_upload b)).1 ≡ code = ap (λ u. (o u).1) (sym p) ∙ same in
        let db_eq : (o (event_upload b)).0.db ≡ l'.server.db =
          ap (λ u. (o u).0.db) (sym p) ∙ ap (λ (t : Link F × Option ℕ). t.0.server.db) h in
        subst (Delivered wire b) db_eq
          (dispatch-Delivered io now l.server q.authorization b (rw code_eq k))
