-- ===== src/Hub/Cached/Loads.antt =====
-- What `LoadState` finds after each operation that writes to the hub's database.
use ai_control_hud.Prelude.{
  ℕ, ◌+◌, ◌≡◌, ◌≢◌, refl, ◌∙◌, String, true, Option, none, some, List, [], ◌∷◌, upsert,
  lookup-upsert_self, lookup-upsert_ne, arith, ok, >>=-eq-ok, Option-cases, inl, inr,
}
use ai_control_hud.Prelude.Result.{Result}
use ai_control_hud.Domain.{Time, HudState, Floating}
use ai_control_hud.Domain.Validate.{validate}
use ai_control_hud.Events.{Event}
use ai_control_hud.Hub.Store.{
  HubEnv, HubLaws, Db, Io, exec, insert_event, Loaded, decode_loaded, load_state, upsert_agent,
  merge_agent, put_snapshot, record_state, record_state_tx, record_events_tx, insert_events,
  insert_or_ignore, insert_row, or_error, Tally,
}
use ai_control_hud.Hub.Log.Sound.{record_events_tx_loop}

module _ {F : Type 0} (fl : Floating F) (env : HubEnv F) where
  -- `LoadState` on a database that executes it.
  abbrev pub stored : String → Db → Result (Option (Loaded F))
  stored k db = load_state env fl (λ _. true) k db

module _ {F : Type 0} (fl : Floating F) (env : HubEnv F) (laws : HubLaws env) where
  -- After a snapshot is put and its agent is seen, the snapshot is found with that time.
  stored-put :
      (k j : String) (st : HudState F) (sent received : Time) (version : Option String) (db : Db)
      → env.encode_state st ≡ some j
      → validate fl st ≡ ok tt
      → stored fl env k (
          put_snapshot env k sent received j
            (record db { agents = upsert k (merge_agent env sent received version) db.agents }))
        ≡ ok (some (record { state = st; last_seen = received }))
  unfolding load_state decode_loaded put_snapshot merge_agent
  stored-put k j st sent received version db e v = ground (
    arith,
    lookup-upsert_self k
        (λ _. record {
          received_at = env.format received;
          sent_at = env.format sent;
          state_json = j;
        })
        db.snapshots,
    lookup-upsert_self k (merge_agent env sent received version) db.agents,
    laws.state_codec st j e,
    laws.time_codec received,
    v,
  )

  -- Seeing an agent again changes the time at which its state is found, and nothing else.
  stored-agent :
      (k : String) (l : Loaded F) (sent received : Time) (version : Option String) (db : Db)
      → stored fl env k db ≡ ok (some l)
      → stored fl env k
          (record db { agents = upsert k (merge_agent env sent received version) db.agents })
        ≡ ok (some (record { state = l.state; last_seen = received }))
  unfolding load_state decode_loaded merge_agent
  stored-agent k l sent received version db h = ground (
    arith,
    lookup-upsert_self k (merge_agent env sent received version) db.agents,
    laws.time_codec received,
  )

  -- Operations on another agent do not change what is found.
  stored-other :
      (k a j : String) (sent received : Time) (version : Option String) (db : Db)
      → a ≢ k
      → (stored fl env k
            (record db { agents = upsert a (merge_agent env sent received version) db.agents })
          ≡ stored fl env k db)
        × (stored fl env k (
              put_snapshot env a sent received j
                (record db { agents = upsert a (merge_agent env sent received version) db.agents }))
            ≡ stored fl env k db)
  unfolding load_state put_snapshot
  stored-other k a j sent received version db h = ground (
    arith,
    lookup-upsert_ne a k (merge_agent env sent received version) db.agents,
    lookup-upsert_ne a k
        (λ _. record {
          received_at = env.format received;
          sent_at = env.format sent;
          state_json = j;
        })
        db.snapshots,
  )

  -- An accepted snapshot is found, with the time at which it was received.
  pub stored-record_state :
      (io : Io) (k : String) (sent received : Time) (st : HudState F) (db db' : Db)
      → validate fl st ≡ ok tt
      → record_state env io k sent st received db ≡ (db', none)
      → stored fl env k db' ≡ ok (some (record { state = st; last_seen = received }))
  unfolding record_state record_state_tx upsert_agent
  stored-record_state io k sent received st db db' v h = elim (Option-cases (env.encode_state st)) [
    | inl no_json ↦ absurd (ground arith)
    | inr (j, e) ↦
        let done : db'
            ≡ put_snapshot env k sent received j
                (record db { agents = upsert k (merge_agent env sent received none) db.agents }) =
          ground arith in
        rw done (stored-put k j st sent received none db e v)
  ]

  pub stored-record_state_other :
      (io : Io) (k a : String) (sent received : Time) (st : HudState F) (db : Db)
      → a ≢ k
      → stored fl env k (record_state env io a sent st received db).0 ≡ stored fl env k db
  unfolding record_state record_state_tx upsert_agent
  stored-record_state_other io k a sent received st db h =
      elim (Option-cases (env.encode_state st)) [
        | inl no_json ↦ ground arith
        | inr (j, e) ↦ ground (arith, stored-other k a j sent received none db h)
      ]

  pub stored-upsert_agent :
      (io : Io) (k : String) (sent received : Time) (version : Option String) (l : Loaded F)
      (db db' : Db)
      → stored fl env k db ≡ ok (some l)
      → upsert_agent env io k sent received version db ≡ ok db'
      → stored fl env k db' ≡ ok (some (record { state = l.state; last_seen = received }))
  unfolding upsert_agent
  stored-upsert_agent io k sent received version l db db' s h =
      let done : db'
          ≡ record db { agents = upsert k (merge_agent env sent received version) db.agents } =
        ground arith in
      rw done (stored-agent k l sent received version db s)

  pub stored-upsert_agent_other :
      (io : Io) (k a : String) (sent received : Time) (version : Option String) (db db' : Db)
      → a ≢ k
      → upsert_agent env io a sent received version db ≡ ok db'
      → stored fl env k db' ≡ stored fl env k db
  unfolding upsert_agent
  stored-upsert_agent_other io k a sent received version db db' n h =
      let done : db'
          ≡ record db { agents = upsert a (merge_agent env sent received version) db.agents } =
        ground arith in
      rw done ((stored-other k a "" sent received version db n).0)

  insert_or_ignore-stored :
      (k a : String) (received : Time) (e : Event) (payload : String) (t : Tally)
      → stored fl env k (insert_or_ignore env a received e payload t).db ≡ stored fl env k t.db
  unfolding insert_or_ignore insert_row load_state
  insert_or_ignore-stored k a received e payload t = ground arith

  insert_events-stored :
      (io : Io) (k a : String) (received : Time) (i : ℕ) (batch : List Event) (t u : Tally)
      → insert_events env io a received i batch t ≡ ok u
      → stored fl env k u.db ≡ stored fl env k t.db
  unfolding insert_events
  insert_events-stored io k a received i [] t u h = let same : t ≡ u = cc in rw same refl
  insert_events-stored io k a received i (e ∷ batch) t u h =
      let (payload, _, m) = >>=-eq-ok (or_error (env.encode_event e) "encode hub event") _ h in
      let (_, _, n) = >>=-eq-ok (exec io (insert_event i) "persist hub event") _ m in
      insert_events-stored io k a received (i + 1) batch
        (insert_or_ignore env a received e payload t) u n
      ∙ insert_or_ignore-stored k a received e payload t

  -- An accepted batch of events changes of what is found the time of its sender, and nothing else.
  pub stored-record_events :
      (io : Io) (a : String) (sent received : Time) (batch : List Event) (db : Db) (u : Tally)
      → record_events_tx env io a sent batch received db ≡ ok u
      → (l : Loaded F) → stored fl env a db ≡ ok (some l)
      → stored fl env a u.db ≡ ok (some (record { state = l.state; last_seen = received }))
  stored-record_events io a sent received batch db u h l s =
      insert_events-stored io a a received 0 batch _ u
        (record_events_tx_loop env io a sent received batch db u h)
      ∙ stored-agent a l sent received none db s

  pub stored-record_events_other :
      (io : Io) (k a : String) (sent received : Time) (batch : List Event) (db : Db) (u : Tally)
      → record_events_tx env io a sent batch received db ≡ ok u
      → a ≢ k
      → stored fl env k u.db ≡ stored fl env k db
  stored-record_events_other io k a sent received batch db u h n =
      insert_events-stored io k a received 0 batch _ u
        (record_events_tx_loop env io a sent received batch db u h)
      ∙ (stored-other k a "" sent received none db n).0
