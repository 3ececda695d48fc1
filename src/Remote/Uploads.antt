-- ===== src/Remote/Uploads.antt =====
-- What the uploads of agent/internal/remote/client.go do to the hub's log.
use ai_control_hud.Prelude.{◌≡◌, String, List, [], ◌∷◌, ok, Result-cases, inl, inr}
use ai_control_hud.Domain.{Time, HudState, Floating}
use ai_control_hud.Domain.Validate.{validate as validate_state}
use ai_control_hud.Events.{Event}
use ai_control_hud.Hub.Models.{EventBatch}
use ai_control_hud.Hub.Store.{HubEnv}
use ai_control_hud.Remote.Client.{
  Client, Network, Upload, event_upload, post_json, state_upload, upload_state, heartbeat,
  check_upload, upload_events,
}
use ai_control_hud.Remote.Wire.{Wire, Link, link}
use ai_control_hud.Remote.Journey.{Travels, post_json_lem}
use ai_control_hud.Remote.Grows.{Grows, Grows-refl, Grows-trans, meet-Grows, find-Grows}
use ai_control_hud.Remote.Landing.{Delivered, answered-Delivered}

abbrev pub batch_of : Client → Time → List Event → EventBatch
batch_of c now es = record { agent_id = c.config.agent_id; sent_at = now; events = es }

module _ {F : Type 0} (fl : Floating F) (hub_env : HubEnv F) (wire : Wire F) where
  abbrev pub net : Network F (Link F)
  net = link fl hub_env wire

  abbrev pub Forward : Link F → Link F → Type 0
  Forward l l' = Grows l.server.db l'.server.db

  pub travel :
      (c : Client) (up : Upload F) (l : Link F)
      → Travels net Forward c.config up l (post_json net c up l)
  travel =
      post_json_lem net Forward (λ l. Grows-refl l.server.db)
        (λ u v w. Grows-trans u.server.db v.server.db w.server.db)
        (λ q l. meet-Grows fl hub_env wire q l l.fates)
        (λ l. find-Grows fl hub_env wire l l.addresses)

  -- A batch whose posting succeeded is in the log.
  pub post_json-Delivered :
      (c : Client) (b : EventBatch) (l : Link F)
      → (post_json net c (event_upload b) l).2 ≡ ok tt
      → Delivered fl hub_env wire b (post_json net c (event_upload b) l).1.server.db
  post_json-Delivered c b l h =
      let landed = (travel c (event_upload b) l).1 h in
      answered-Delivered fl hub_env wire b landed.request landed.from _ landed.from.fates
        landed.code landed.payload landed.exchange landed.high

  pub post_json-Forward :
      (c : Client) (up : Upload F) (l : Link F) → Forward l (post_json net c up l).1
  post_json-Forward c up l = (travel c up l).0

  pub upload_events-Forward :
      (now : Time) (es : List Event) (c : Client) (l : Link F)
      → Forward l (upload_events net now es c l).1
  unfolding upload_events
  upload_events-Forward now [] c l = Grows-refl l.server.db
  upload_events-Forward now (e ∷ es) c l = elim (Result-cases (check_upload (e ∷ es))) [
    | inl (v, h) ↦
        rw (upload_events, h) (post_json-Forward c (event_upload (batch_of c now (e ∷ es))) l)
    | inr (x, h) ↦ rw (upload_events, h) (Grows-refl l.server.db)
  ]

  pub upload_events-Delivered :
      (now : Time) (e : Event) (es : List Event) (c : Client) (l : Link F)
      → (upload_events net now (e ∷ es) c l).2 ≡ ok tt
      → Delivered fl hub_env wire
          (batch_of c now (e ∷ es))
          (upload_events net now (e ∷ es) c l).1.server.db
  unfolding upload_events
  upload_events-Delivered now e es c l = elim (Result-cases (check_upload (e ∷ es))) [
    | inl (v, h) ↦ rw (upload_events, h) (post_json-Delivered c (batch_of c now (e ∷ es)) l)
    | inr (x, h) ↦ rw (upload_events, h) (λ k. absurd (cc))
  ]

  pub upload_state-Forward :
      (now : Time) (s : HudState F) (c : Client) (l : Link F)
      → Forward l (upload_state net fl now s c l).1
  unfolding upload_state
  upload_state-Forward now s c l = elim (Result-cases (validate_state fl s)) [
    | inl (v, h) ↦
        rw (upload_state, h)
          (post_json-Forward c
            (state_upload (record { agent_id = c.config.agent_id; sent_at = now; state = s })) l)
    | inr (x, h) ↦ rw (upload_state, h) (Grows-refl l.server.db)
  ]

  pub heartbeat-Forward :
      (now : Time) (v : String) (c : Client) (l : Link F) → Forward l (heartbeat net now v c l).1
  unfolding heartbeat
  heartbeat-Forward now v c l = post_json-Forward c _ l
