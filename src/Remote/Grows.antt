-- ===== src/Remote/Grows.antt =====
-- What an exchange with the hub does to its log (agent/internal/hub/server.go, store.go): nothing
-- leaves it, and an answer of 2xx to a batch means that the batch is in it.
use ai_control_hud.Prelude.{
  ℕ, ◌≡◌, refl, sym, ap, subst, String, true, Option, List, [], ◌∷◌, any-append, str_eq, arith, ok,
  err,
}
use ai_control_hud.Prelude.Result.{Result}
use ai_control_hud.Domain.{Time, HudState, Floating}
use ai_control_hud.Events.{Event}
use ai_control_hud.Hub.Models.{EventBatch, StateEnvelope, Heartbeat}
use ai_control_hud.Hub.Store.{
  HubEnv, HubRow, Db, Io, has_event, record_state, record_state_tx, record_heartbeat, record_events,
  upsert_agent, put_snapshot,
}
use ai_control_hud.Hub.Server.{
  Server, Response, refused, written, after_checks, accept_state, accept_heartbeat, accept_events,
  handle_agent_state, handle_agent_heartbeat, handle_agent_events,
}
use ai_control_hud.Hub.Log.Sound.{IsSound, record_events-IsSound}
use ai_control_hud.Hub.Log.Redelivery.{record_events_lem, record_events_atomic}
use ai_control_hud.Remote.Client.{Upload, state_upload, heartbeat_upload, event_upload, HttpRequest}
use ai_control_hud.Remote.Wire.{Wire, Fate, lost, unanswered, answered, Link, dispatch, meet, find}

-- No event leaves the log, and a sound log stays sound.
pub record Grows (before after : Db) : Type 0 where
  pub stays : (id : String) → has_event id before.events ≡ true → has_event id after.events ≡ true
  pub sound : IsSound before → IsSound after

pub Grows-refl : (x : Db) → Grows x x
Grows-refl x = record { stays = λ id h. h; sound = λ h. h }

pub Grows-trans : (x y z : Db) → Grows x y → Grows y z → Grows x z
Grows-trans x y z p q = record {
  stays = λ id h. q.stays id (p.stays id h);
  sound = λ h. q.sound (p.sound h);
}

-- A step that leaves the events as they are.
Grows-same : (x y : Db) → (y.events ≡ x.events) × (y.last_seq ≡ x.last_seq) → Grows x y
Grows-same x y (e, k) = record {
  stays = λ id h. rw e h;
  sound = λ h. record { keyed = rw (e, k) h.keyed; unique = rw e h.unique };
}

module _ {F : Type 0} (fl : Floating F) (env : HubEnv F) where
  record_state-Grows :
      (io : Io) (a : String) (sent : Time) (st : HudState F) (received : Time) (db : Db)
      → Grows db (record_state env io a sent st received db).0
  unfolding record_state record_state_tx upsert_agent put_snapshot
  record_state-Grows io a sent st received db = Grows-same db _ (ground arith)

  record_heartbeat-Grows :
      (io : Io) (a : String) (sent received : Time) (v : Option String) (db : Db)
      → Grows db (record_heartbeat env io a sent received v db).0
  unfolding record_heartbeat upsert_agent
  record_heartbeat-Grows io a sent received v db = Grows-same db _ (ground arith)

  -- By what `RecordEvents` returned.
  returned-Grows :
      (io : Io) (a : String) (sent : Time) (batch : List Event) (received : Time) (db : Db)
      (o : Db × Result (ℕ × ℕ))
      → record_events env io a sent batch received db ≡ o
      → Grows db o.0
  returned-Grows io a sent batch received db (db', err e) h =
      let kept =
        record_events_atomic env io a sent received batch db e
          (ap (λ (p : Db × Result (ℕ × ℕ)). p.1) h) in
      subst (λ (p : Db × Result (ℕ × ℕ)). Grows db p.0) h
        (subst (Grows db) (sym kept) (Grows-refl db))
  returned-Grows io a sent batch received db (db', ok (x, y)) h =
      let (new, rows, _, _, _) = record_events_lem env io a sent received batch db db' x y h in
      record {
        stays = λ id k.
            ground (arith, rows, any-append (λ (r : HubRow). str_eq r.event_id id) db.events new);
        sound = λ g.
            subst (λ (p : Db × Result (ℕ × ℕ)). IsSound p.0) h
              (record_events-IsSound env io a sent received batch db g);
      }

  record_events-Grows :
      (io : Io) (a : String) (sent : Time) (batch : List Event) (received : Time) (db : Db)
      → Grows db (record_events env io a sent batch received db).0
  record_events-Grows io a sent batch received db =
      returned-Grows io a sent batch received db _ refl

  accept_state-db :
      (io : Io) (now : Time) (s : Server F) (e : StateEnvelope F)
      → (accept_state fl env io now s e).0.db
        ≡ (record_state env io e.agent_id e.sent_at e.state now s.db).0
  unfolding accept_state
  accept_state-db io now s e = ground arith

  accept_heartbeat-db :
      (io : Io) (now : Time) (s : Server F) (h : Heartbeat)
      → (accept_heartbeat fl env io now s h).0.db
        ≡ (record_heartbeat env io h.agent_id h.sent_at now h.agent_version s.db).0
  unfolding accept_heartbeat
  accept_heartbeat-db io now s h = ground arith

  pub accept_events-db :
      (io : Io) (now : Time) (s : Server F) (b : EventBatch)
      → (accept_events fl env io now s b).0.db
        ≡ (record_events env io b.agent_id b.sent_at b.events now s.db).0
  unfolding accept_events
  accept_events-db io now s b = ground arith

  after_checks-Grows :
      {A B : Type 0} (s : Server F) (m : Response A) (act : A → Server F × Response B)
      → ((a : A) → Grows s.db (act a).0.db)
      → Grows s.db (after_checks s m act).0.db
  after_checks-Grows s (refused code e) act h = Grows-refl s.db
  after_checks-Grows s (written a) act h = h a

  module _ (wire : Wire F) where
    dispatch-Grows :
        (io : Io) (now : Time) (s : Server F) (signed : String) (up : Upload F)
        → Grows s.db (dispatch fl env wire io now s signed up).0.db
    unfolding dispatch handle_agent_state handle_agent_heartbeat handle_agent_events
    dispatch-Grows io now s signed (state_upload e) =
        after_checks-Grows s _ (accept_state fl env io now s) (λ a.
          subst (Grows s.db) (sym (accept_state-db io now s a))
            (record_state-Grows io a.agent_id a.sent_at a.state now s.db))
    dispatch-Grows io now s signed (heartbeat_upload h) =
        after_checks-Grows s _ (accept_heartbeat fl env io now s) (λ a.
          subst (Grows s.db) (sym (accept_heartbeat-db io now s a))
            (record_heartbeat-Grows io a.agent_id a.sent_at now a.agent_version s.db))
    dispatch-Grows io now s signed (event_upload b) =
        after_checks-Grows s _ (accept_events fl env io now s) (λ a.
          subst (Grows s.db) (sym (accept_events-db io now s a))
            (record_events-Grows io a.agent_id a.sent_at a.events now s.db))

    pub meet-Grows :
        (q : HttpRequest F) (l : Link F) (fates : List Fate)
        → Grows l.server.db (meet fl env wire q l fates).0.server.db
    unfolding meet
    meet-Grows q l [] = Grows-refl l.server.db
    meet-Grows q l (lost ∷ fs) = Grows-refl l.server.db
    meet-Grows q l (unanswered io now ∷ fs) =
        dispatch-Grows io now l.server q.authorization q.payload
    meet-Grows q l (answered io now ∷ fs) = dispatch-Grows io now l.server q.authorization q.payload

    pub find-Grows :
        (l : Link F) (addresses : List (Result String))
        → Grows l.server.db (find fl env wire l addresses).0.server.db
    unfolding find
    find-Grows l [] = Grows-refl l.server.db
    find-Grows l (r ∷ rs) = Grows-refl l.server.db
