-- ===== src/Hub/Cached/Agrees.antt =====
-- The cached snapshot is the one in the database, whatever requests are served.
use ai_control_hud.Prelude.{
  ◌≡◌, ◌≢◌, sym, ◌∙◌, subst, String, true, false, Option, none, some, List, arith, ok, Error,
  Result-cases, Option-cases, Bool-cases, inl, inr, eq_iff, str_eq, if◌then◌else◌,
}
use ai_control_hud.Prelude.Result.{Result}
use ai_control_hud.Domain.{Time, HudState, Floating}
use ai_control_hud.Domain.Validate.{validate}
use ai_control_hud.Hub.Models.{StateEnvelope, Heartbeat, EventBatch, validate_envelope}
use ai_control_hud.Events.{Event}
use ai_control_hud.Hub.Store.{
  Tally, HubEnv, HubLaws, Db, Io, Loaded, record_state, record_heartbeat, record_events,
  record_events_tx, upsert_agent,
}
use ai_control_hud.Hub.Clone.{clone_hud_state-eq}
use ai_control_hud.Hub.Server.{
  Server, Request, written, admit, accept_state, accept_heartbeat, accept_events, cache_store,
  cache_heartbeat,
}
use ai_control_hud.Hub.Cached.Loads.{
  stored, stored-record_state, stored-record_state_other, stored-upsert_agent,
  stored-upsert_agent_other, stored-record_events, stored-record_events_other,
}

differ : (a b : String) → str_eq a b ≡ false → a ≢ b
differ a b h e = ground (arith, eq_iff a b)

pub admit_checked :
    {F A : Type 0} (check : A → Result (Unit {0})) (s : Server F) (r : Request A) (a : A)
    → admit check s r ≡ written a
    → check a ≡ ok tt
unfolding admit
admit_checked check s r a h = ground arith

validate_envelope_state :
    {F : Type 0} (fl : Floating F) (e : StateEnvelope F)
    → validate_envelope fl e ≡ ok tt
    → validate fl e.state ≡ ok tt
unfolding validate_envelope
validate_envelope_state fl e h = ground arith

record_state_atomic :
    {F : Type 0} (env : HubEnv F) (io : Io) (a : String) (sent : Time) (st : HudState F)
    (received : Time) (db : Db) (c : Error)
    → (record_state env io a sent st received db).1 ≡ some c
    → (record_state env io a sent st received db).0 ≡ db
unfolding record_state
record_state_atomic env io a sent st received db c h = ground arith

module _ {F : Type 0} (fl : Floating F) (env : HubEnv F) (laws : HubLaws env) where
  -- What is cached is the state in the database, at some time of last contact.
  abbrev pub Agrees : String → Option (Loaded F) → Db → Type 0
  Agrees k none db = Unit {0}
  Agrees k (some c) db =
      (t : Time) × (stored fl env k db ≡ ok (some (record { state = c.state; last_seen = t })))

  abbrev pub IsCoherent : Server F → Type 0
  IsCoherent s = Agrees s.config.primary_agent_id s.cache s.db

  Agrees-same :
      (k : String) (c : Option (Loaded F)) (x y : Db)
      → stored fl env k y ≡ stored fl env k x
      → Agrees k c x
      → Agrees k c y
  Agrees-same k none x y e a = tt
  Agrees-same k (some c) x y e a = (a.0, e ∙ a.1)

  Agrees-seen :
      (io : Io) (k : String) (sent received : Time) (version : Option String)
      (c : Option (Loaded F)) (db db' : Db)
      → upsert_agent env io k sent received version db ≡ ok db'
      → Agrees k c db
      → Agrees k c db'
  Agrees-seen io k sent received version none db db' h g = tt
  Agrees-seen io k sent received version (some c) db db' h g =
      (received, stored-upsert_agent fl env laws io k sent received version _ db db' g.1 h)

  Agrees-agent :
      (io : Io) (k a : String) (sent received : Time) (version : Option String)
      (c : Option (Loaded F)) (db db' : Db)
      → upsert_agent env io a sent received version db ≡ ok db'
      → Agrees k c db
      → Agrees k c db'
  Agrees-agent io k a sent received version c db db' h g = elim (Bool-cases (str_eq a k)) [
    | inl same ↦
        let e = (eq_iff a k).0 same in Agrees-seen io k sent received version c db db' (rw e at h) g
    | inr other ↦
        Agrees-same k c db db'
          (stored-upsert_agent_other fl env laws io k a sent received version db db'
            (differ a k other) h)
          g
  ]

  Agrees-batch :
      (io : Io) (k a : String) (sent received : Time) (batch : List Event) (c : Option (Loaded F))
      (db : Db) (u : Tally)
      → record_events_tx env io a sent batch received db ≡ ok u
      → Agrees k c db
      → Agrees k c u.db
  Agrees-batch io k a sent received batch none db u h g = tt
  Agrees-batch io k a sent received batch (some c) db u h g = elim (Bool-cases (str_eq a k)) [
    | inl same ↦
        let e = (eq_iff a k).0 same in
        (received, stored-record_events fl env laws io k sent received batch db u (rw e at h) _ g.1)
    | inr other ↦ (
      g.0,
      stored-record_events_other fl env laws io k a sent received batch db u h (differ a k other)
          ∙ g.1,
    )
  ]

  Agrees-heartbeat :
      (k : String) (now : Time) (c : Option (Loaded F)) (db : Db)
      → Agrees k c db
      → Agrees k (cache_heartbeat now c) db
  unfolding cache_heartbeat
  Agrees-heartbeat k now none db g = tt
  Agrees-heartbeat k now (some c) db g = g

  -- The cache after a heartbeat.
  abbrev beaten : Time → Server F → Heartbeat → Option (Loaded F)
  beaten now s h =
      if str_eq h.agent_id s.config.primary_agent_id then cache_heartbeat now s.cache else s.cache

  Agrees-beaten :
      (k : String) (now : Time) (s : Server F) (h : Heartbeat) (db : Db)
      → Agrees k s.cache db
      → Agrees k (beaten now s h) db
  Agrees-beaten k now s h db g = elim (Bool-cases (str_eq h.agent_id s.config.primary_agent_id)) [
    | inl same ↦ rw same (Agrees-heartbeat k now s.cache db g)
    | inr other ↦ rw other g
  ]

  pub accept_heartbeat-IsCoherent :
      (io : Io) (now : Time) (s : Server F) (h : Heartbeat)
      → IsCoherent s
      → IsCoherent (accept_heartbeat fl env io now s h).0
  unfolding accept_heartbeat record_heartbeat
  accept_heartbeat-IsCoherent io now s h g =
      elim (Result-cases (upsert_agent env io h.agent_id h.sent_at now h.agent_version s.db)) [
        | inl (db', e) ↦
            let done : (accept_heartbeat fl env io now s h).0
                ≡ record s { db = db'; cache = beaten now s h } =
              ground arith in
            subst IsCoherent (sym done) (
              Agrees-beaten s.config.primary_agent_id now s h db' (
                Agrees-agent io s.config.primary_agent_id h.agent_id h.sent_at now h.agent_version
                  s.cache s.db db' e g))
        | inr (c, e) ↦
            let done : (accept_heartbeat fl env io now s h).0 ≡ s = ground arith in
            subst IsCoherent (sym done) g
      ]

  pub accept_events-IsCoherent :
      (io : Io) (now : Time) (s : Server F) (b : EventBatch)
      → IsCoherent s
      → IsCoherent (accept_events fl env io now s b).0
  unfolding accept_events record_events
  accept_events-IsCoherent io now s b g =
      elim (Result-cases (record_events_tx env io b.agent_id b.sent_at b.events now s.db)) [
        | inl (u, e) ↦
            let done : (accept_events fl env io now s b).0 ≡ record s { db = u.db } =
              ground arith in
            subst IsCoherent (sym done) (
              Agrees-batch io s.config.primary_agent_id b.agent_id b.sent_at now b.events s.cache
                s.db u e g)
        | inr (c, e) ↦
            let done : (accept_events fl env io now s b).0 ≡ s = ground arith in
            subst IsCoherent (sym done) g
      ]

  accept_primary :
      (io : Io) (now : Time) (s : Server F) (e : StateEnvelope F) (db' : Db)
      → validate_envelope fl e ≡ ok tt
      → record_state env io e.agent_id e.sent_at e.state now s.db ≡ (db', none)
      → str_eq e.agent_id s.config.primary_agent_id ≡ true
      → Agrees s.config.primary_agent_id (cache_store e.state now s.cache) db'
  unfolding cache_store
  accept_primary io now s e db' v h p = (
    now,
    rw (clone_hud_state-eq e.state) (
        subst (λ k. stored fl env k db' ≡ ok (some (record { state = e.state; last_seen = now })))
          ((eq_iff _ _).0 p)
          (stored-record_state fl env laws io e.agent_id e.sent_at now e.state s.db db'
            (validate_envelope_state fl e v) h)),
  )

  pub accept_state-IsCoherent :
      (io : Io) (now : Time) (s : Server F) (e : StateEnvelope F)
      → validate_envelope fl e ≡ ok tt
      → IsCoherent s
      → IsCoherent (accept_state fl env io now s e).0
  unfolding accept_state
  accept_state-IsCoherent io now s e v g =
      let r : Db × Option Error = record_state env io e.agent_id e.sent_at e.state now s.db in
      elim (Option-cases r.1) [
        | inr (c, fails) ↦
            let done : (accept_state fl env io now s e).0 ≡ s =
              ground
                (arith, record_state_atomic env io e.agent_id e.sent_at e.state now s.db c fails) in
            subst IsCoherent (sym done) g
        | inl works ↦
            let whole : r ≡ (r.0, none) = ground arith in
            elim (Bool-cases (str_eq e.agent_id s.config.primary_agent_id)) [
              | inl same ↦
                  let done : (accept_state fl env io now s e).0
                      ≡ record s { db = r.0; cache = cache_store e.state now s.cache } =
                    ground arith in
                  subst IsCoherent (sym done) (accept_primary io now s e r.0 v whole same)
              | inr other ↦
                  let done : (accept_state fl env io now s e).0 ≡ record s { db = r.0 } =
                    ground arith in
                  subst IsCoherent (sym done) (
                    Agrees-same s.config.primary_agent_id s.cache s.db r.0
                      (stored-record_state_other fl env laws io s.config.primary_agent_id e.agent_id
                        e.sent_at now e.state s.db (differ _ _ other))
                      g)
            ]
      ]
