-- ===== src/Remote/Progress.antt =====
-- What a whole round of `eventDeliveryLoop` in agent/internal/remote/runtime.go achieves: all of it
-- where everything works, and nothing where the hub refuses an event.
use ai_control_hud.Prelude.{
  suc, ◌≡◌, ◌≢◌, refl, String, Bool, true, not, some, List, [], ◌∷◌, any, is_ok, arith, ok, err,
  Result-cases, inl, inr,
}
use ai_control_hud.Prelude.Result.{Result}
use ai_control_hud.Domain.{Time, Floating}
use ai_control_hud.Events.{Event}
use ai_control_hud.Events.Outbox.{Env, Io, pending}
use ai_control_hud.Hub.Models.{
  EventBatch, validate_batch, validate_events, validate_event as hub_validate_event,
}
use ai_control_hud.Hub.Store.{HubEnv}
use ai_control_hud.Remote.Client.{Client, upload_events}
use ai_control_hud.Remote.Delivery.{
  Agent, resting, holding, event_ids, after_upload, fetch, send, send_from, acknowledge,
  acknowledge_from, deliver,
}
use ai_control_hud.Remote.Wire.{Wire, Link}
use ai_control_hud.Remote.Uploads.{net, batch_of, upload_events-Delivered}

-- The hub refuses one of these events.
abbrev pub is_refused : List Event → Bool
is_refused = any (λ e. not (is_ok (hub_validate_event e)))

refused_events : (es : List Event) → is_refused es ≡ true → validate_events es ≢ ok tt
unfolding validate_events
refused_events [] r h = cc
refused_events (e ∷ es) r h = elim (Result-cases (hub_validate_event e)) [
  | inl (v, k) ↦ refused_events es (ground arith) (ground arith)
  | inr (c, k) ↦ ground arith
]

refused_batch : (b : EventBatch) → is_refused b.events ≡ true → validate_batch b ≢ ok tt
unfolding validate_batch
refused_batch b r h = refused_events b.events r (ground arith)

module _ {F : Type 0} (fl : Floating F) (env : Env) (hub_env : HubEnv F) (wire : Wire F) where
  refused_send :
      (io : Io) (a : Agent) (ids : List String) (o : Client × Link F × Result (Unit {0}))
      → o.2 ≢ ok tt
      → ((acknowledge io (after_upload a ids o).0).outbox ≡ a.outbox)
        × ((acknowledge io (after_upload a ids o).0).phase ≡ resting)
        × ((acknowledge io (after_upload a ids o).0).failures ≡ suc a.failures)
  unfolding acknowledge acknowledge_from
  refused_send io a ids (c, l, err e) n = (refl, refl, refl)
  refused_send io a ids (c, l, ok tt) n = absurd (n refl)

  -- Where the hub refuses one of the events that are read for delivery, as it reads them, a round
  -- leaves the outbox as it is and counts as a failure, whatever the network and the databases do:
  -- the other events of the batch are held back with it.
  pub refused_event_stays :
      (io io' : Io) (now : Time) (a : Agent) (l : Link F) (e : Event) (es : List Event)
      → pending env io a.outbox 100 ≡ ok (e ∷ es)
      → ((b : EventBatch)
          → (wire.carry_events (batch_of a.client now (e ∷ es))).first ≡ some b
          → is_refused b.events ≡ true)
      → ((deliver (net fl hub_env wire) env io io' now a l).0.outbox ≡ a.outbox)
        × ((deliver (net fl hub_env wire) env io io' now a l).0.phase ≡ resting)
        × ((deliver (net fl hub_env wire) env io io' now a l).0.failures ≡ suc a.failures)
  unfolding deliver fetch send send_from
  refused_event_stays io io' now a l e es p r =
      let n : (upload_events (net fl hub_env wire) now (e ∷ es) a.client l).2 ≢ ok tt = λ h.
        let d = upload_events-Delivered fl hub_env wire now e es a.client l h in
        refused_batch d.batch (r d.batch d.read) d.valid in
      rw p (
        refused_send io' (record a { phase = holding (e ∷ es) }) (event_ids (e ∷ es))
          (upload_events (net fl hub_env wire) now (e ∷ es) a.client l) n)
