-- ===== src/Remote/Wire.antt =====
-- The agent's network, where it ends at the hub: routes of agent/internal/hub/server.go. The JSON
-- between the two, and what becomes of a request or a response on its way, come from outside.
use ai_control_hud.Prelude.{ℕ, Bool, String, Option, none, some, List, [], ◌∷◌, message, err, true}
use ai_control_hud.Prelude.Result.{Result}
use ai_control_hud.Domain.{Time, Floating}
use ai_control_hud.Hub.Models.{StateEnvelope, Heartbeat, EventBatch}
use ai_control_hud.Hub.Store.{HubEnv, Io}
use ai_control_hud.Hub.Server.{
  Server, Response, refused, written, Body, handle_agent_state, handle_agent_heartbeat,
  handle_agent_events,
}
use ai_control_hud.Remote.Client.{
  Upload, state_upload, heartbeat_upload, event_upload, HttpRequest, Network,
}

-- The JSON that the agent writes, as the hub's decoder reads it.
pub record Wire (F : Type 0) : Type 0 where
  pub encodes : Upload F → Bool
  pub makes_request : String → Bool
  pub carry_state : StateEnvelope F → Body (StateEnvelope F)
  pub carry_heartbeat : Heartbeat → Body Heartbeat
  pub carry_events : EventBatch → Body EventBatch

-- A request may be lost, or served with its response lost, or served and answered. It is served at
-- a time, by a database that may fail statements.
pub data Fate : Type 0 where
  lost : Fate
  unanswered answered : Io → Time → Fate

-- The hub, the fates of the requests to come, and what discoveries will give. Where nothing more
-- is said, requests are lost and discoveries fail.
pub record Link (F : Type 0) : Type 0 where
  pub server : Server F
  pub fates : List Fate
  pub addresses : List (Result String)

-- The code of a response.
abbrev pub status : {A : Type 0} → Response A → ℕ
status (refused code _) = code
status (written _) = 200

abbrev pub coded : {F A : Type 0} → Server F × Response A → Server F × ℕ
coded (s, r) = (s, status r)

module _ {F : Type 0} (fl : Floating F) (env : HubEnv F) (wire : Wire F) where
  -- The handler that the path of the upload leads to.
  unfoldable pub dispatch : Io → Time → Server F → String → Upload F → Server F × ℕ
  dispatch io now s signed (state_upload e) = coded (
      handle_agent_state fl env io now s
        (record { is_post = true; authorization = signed; body = wire.carry_state e }))
  dispatch io now s signed (heartbeat_upload h) = coded (
      handle_agent_heartbeat fl env io now s
        (record { is_post = true; authorization = signed; body = wire.carry_heartbeat h }))
  dispatch io now s signed (event_upload b) = coded (
      handle_agent_events fl env io now s
        (record { is_post = true; authorization = signed; body = wire.carry_events b }))

  -- A request that meets the fates in turn.
  unfoldable pub meet : HttpRequest F → Link F → List Fate → Link F × Option ℕ
  meet q l [] = (l, none)
  meet q l (lost ∷ fs) = (record l { fates = fs }, none)
  meet q l (unanswered io now ∷ fs) = (
    record l { server = (dispatch io now l.server q.authorization q.payload).0; fates = fs },
    none,
  )
  meet q l (answered io now ∷ fs) =
      let (s, code) = dispatch io now l.server q.authorization q.payload in
      (record l { server = s; fates = fs }, some code)

  unfoldable pub find : Link F → List (Result String) → Link F × Result String
  find l [] = (l, err (message "no hub found"))
  find l (r ∷ rs) = (record l { addresses = rs }, r)

  abbrev pub link : Network F (Link F)
  link = record {
    encodes = wire.encodes;
    makes_request = wire.makes_request;
    http_do = λ q l. meet q l l.fates;
    discover = λ l. find l l.addresses;
  }
