-- ===== src/Hub/Log/Redelivery.antt =====
-- `RecordEvents` of agent/internal/hub/store.go is atomic, counts every event of a batch once, and
-- takes the same batch again without a change to the log.
use ai_control_hud.Prelude.{
  ℕ, ◌+◌, ◌≡◌, refl, ap, String, true, some, List, [], ◌∷◌, ◌++◌, All, length, arith, ok, err,
  Error, Result-cases, inl, inr,
}
use ai_control_hud.Domain.{Time}
use ai_control_hud.Events.{Event}
use ai_control_hud.Hub.Store.{
  HubEnv, HubRow, Db, Io, has_event, insert_events, insert_or_ignore, Tally, record_events,
  record_events_tx, upsert_agent,
}
use ai_control_hud.Hub.Log.Sound.{start, record_events_tx_loop}
use ai_control_hud.Hub.Log.Inserts.{insert_events-Adds, insert_events_known}

module _ {F : Type 0} (env : HubEnv F) where
  -- A batch that is refused at any statement leaves the database as it was.
  pub record_events_atomic :
      (io : Io) (agent_id : String) (sent_at received_at : Time) (batch : List Event) (db : Db)
      (e : Error)
      → (record_events env io agent_id sent_at batch received_at db).1 ≡ err e
      → (record_events env io agent_id sent_at batch received_at db).0 ≡ db
  unfolding record_events
  record_events_atomic io agent_id sent_at received_at batch db e h = ground arith

  record_events_inv :
      (io : Io) (agent_id : String) (sent_at received_at : Time) (batch : List Event) (db db' : Db)
      (a d : ℕ)
      → record_events env io agent_id sent_at batch received_at db ≡ (db', ok (a, d))
      → insert_events env io agent_id received_at 0 batch
          (start env agent_id sent_at received_at db)
        ≡ ok (record { db = db'; accepted = a; duplicates = d })
  unfolding record_events
  record_events_inv io agent_id sent_at received_at batch db db' a d h =
      elim (Result-cases (record_events_tx env io agent_id sent_at batch received_at db)) [
        | inl (u, e) ↦
            let same : u ≡ record { db = db'; accepted = a; duplicates = d } = ground arith in
            record_events_tx_loop env io agent_id sent_at received_at batch db _ (rw (← same) e)
        | inr (c, e) ↦ absurd (ground arith)
      ]

  -- A batch that is accepted adds `a` rows after those that were there, counts each of its events
  -- once, as accepted or as a duplicate, and has every event of it in the log.
  pub record_events_lem :
      (io : Io) (agent_id : String) (sent_at received_at : Time) (batch : List Event) (db db' : Db)
      (a d : ℕ)
      → record_events env io agent_id sent_at batch received_at db ≡ (db', ok (a, d))
      → (new : List HubRow) × (db'.events ≡ db.events ++ new)
        × (length new ≡ a)
        × (a + d ≡ length batch)
        × All (λ (e : Event). has_event e.event_id db'.events ≡ true) batch
  record_events_lem io agent_id sent_at received_at batch db db' a d h =
      let (new, p, all) =
        insert_events-Adds env agent_id received_at io 0 batch _ _
          (record_events_inv io agent_id sent_at received_at batch db db' a d h) in
      (new, p.rows, omega (arith, p.accepted), omega (arith, p.counted), all)

  -- The same batch once more, from any sender at any time: if it is accepted, all of it counts as
  -- duplicates and the log stays as it is.
  pub record_events_again :
      (io io' : Io) (agent_id agent_id' : String) (sent_at sent_at' received_at received_at' : Time)
      (batch : List Event) (x y z : Db) (a d a' d' : ℕ)
      → record_events env io agent_id sent_at batch received_at x ≡ (y, ok (a, d))
      → record_events env io' agent_id' sent_at' batch received_at' y ≡ (z, ok (a', d'))
      → (z.events ≡ y.events) × (z.last_seq ≡ y.last_seq) × (a' ≡ 0) × (d' ≡ length batch)
  record_events_again io io' agent_id agent_id' sent_at sent_at' received_at received_at' batch x y
        z a d a' d' h k =
      let (_, _, _, _, all) = record_events_lem io agent_id sent_at received_at batch x y a d h in
      let p =
        insert_events_known env agent_id' received_at' io' 0 batch _ _ all
          (record_events_inv io' agent_id' sent_at' received_at' batch y z a' d' k) in
      (ap (λ (q : Db). q.events) p.0, ap (λ (q : Db). q.last_seq) p.0, p.1, omega (arith, p.2))

  insert_events_total :
      (agent_id : String) (received_at : Time) (i : ℕ) (batch : List Event) (t : Tally)
      → All (λ e. (j : String) × (env.encode_event e ≡ some j)) batch
      → (u : Tally) × (insert_events env (λ _. true) agent_id received_at i batch t ≡ ok u)
  unfolding insert_events
  insert_events_total agent_id received_at i [] t a = (t, refl)
  insert_events_total agent_id received_at i (e ∷ batch) t a =
      let (j, k) = a.0 in
      let (u, r) =
        insert_events_total agent_id received_at (i + 1) batch
          (insert_or_ignore env agent_id received_at e j t) a.1 in
      (u, rw k r)

  -- Where the database executes every statement and the events have JSON, the batch is accepted.
  pub record_events_total :
      (agent_id : String) (sent_at received_at : Time) (batch : List Event) (db : Db)
      → All (λ e. (j : String) × (env.encode_event e ≡ some j)) batch
      → (db' : Db) × (a : ℕ) × (d : ℕ) × (record_events env
            (λ _. true)
            agent_id
            sent_at
            batch
            received_at
            db
          ≡ (db', ok (a, d)))
  unfolding record_events record_events_tx upsert_agent
  record_events_total agent_id sent_at received_at batch db all =
      let (u, r) =
        insert_events_total agent_id received_at 0 batch (start env agent_id sent_at received_at db)
          all in
      (u.db, u.accepted, u.duplicates, ground (arith, r))
