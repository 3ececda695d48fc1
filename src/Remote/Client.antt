-- ===== src/Remote/Client.antt =====
-- agent/internal/remote/client.go: posting to the hub, whose address is configured or discovered.
-- JSON, HTTP and the discovery come from outside; what they do to the world is a parameter, so the
-- world may be the hub itself. `now` is the time that the client's clock gives.
use ai_control_hud.Prelude.{
  ℕ, ◌||◌, String, Bool, not, Option, none, some, List, [], ◌∷◌, length, ltb, str_eq, str_append,
  Error, message, numbered, wrap, ok, err, ◌>>◌, reject, within, if◌then◌else◌,
}
use ai_control_hud.Prelude.Result.{Result}
use ai_control_hud.Domain.{Time, HudState, Floating}
use ai_control_hud.Domain.Validate.{validate as validate_state}
use ai_control_hud.Events.{Event, validate as validate_event}
use ai_control_hud.Hub.Models.{StateEnvelope, Heartbeat, EventBatch}
use ai_control_hud.Remote.Config.{Config, Url, normalize, is_auto_discover, validate}

pub record Client : Type 0 where
  pub config : Config
  pub resolved_base_url : String

-- What is posted, to the path of its kind.
pub data Upload (F : Type 0) : Type 0 where
  state_upload : StateEnvelope F → Upload F
  heartbeat_upload : Heartbeat → Upload F
  event_upload : EventBatch → Upload F

pub record HttpRequest (F : Type 0) : Type 0 where
  pub base_url : String
  pub authorization : String
  pub payload : Upload F

-- `json.Marshal` and `http.NewRequestWithContext` may refuse; `http_do` gives the status of the
-- response, and none where there is no response.
pub record Network (F W : Type 0) : Type 0 where
  pub encodes : Upload F → Bool
  pub makes_request : String → Bool
  pub http_do : HttpRequest F → W → W × Option ℕ
  pub discover : W → W × Result String

unfoldable pub new_client : (String → Option Url) → Config → Result Client
new_client parse_url raw =
    let c = normalize raw in
    validate parse_url c
    >> ok (record { config = c; resolved_base_url = if is_auto_discover c then "" else c.base_url })

-- Of a response.
unfoldable pub check_status : Option ℕ → Result (Unit {0})
check_status none = err (message "hub request failed")
check_status (some code) =
    if ltb code 200 || not (ltb code 300) then err (numbered "hub returned HTTP" code) else ok tt

unfoldable pub invalidate_resolved_base_url : String → Client → Client
invalidate_resolved_base_url expected c =
    if str_eq c.resolved_base_url expected then record c { resolved_base_url = "" } else c

unfoldable pub check_batch : List Event → Result (Unit {0})
check_batch [] = ok tt
check_batch (e ∷ es) = within "refuse invalid event upload" (validate_event e) >> check_batch es

-- The checks of `UploadEvents`.
unfoldable pub check_upload : List Event → Result (Unit {0})
check_upload es =
    reject (ltb 100 (length es)) (message "event upload batch exceeds 100 events") >> check_batch es

module _ {F W : Type 0} (net : Network F W) where
  abbrev pub request_to : Client → String → Upload F → HttpRequest F
  request_to c url up = record {
    base_url = url;
    authorization = str_append "Bearer " c.config.token;
    payload = up;
  }

  unfoldable pub post_json_at : Client → String → Upload F → W → W × Result (Unit {0})
  post_json_at c url up w =
      if not (net.makes_request url)
      then (w, err (message "create hub request"))
      else let (w', status) = net.http_do (request_to c url up) w in (w', check_status status)

  -- What a discovery that gave an address does to the client.
  unfoldable pub keep_address : Client → W × Result String → Client × W × Result String
  keep_address c (w, err e) = (c, w, err e)
  keep_address c (w, ok url) = (record c { resolved_base_url = url }, w, ok url)

  unfoldable pub resolve_base_url : Client → W → Client × W × Result String
  unfolding keep_address
  resolve_base_url c w =
      if not (is_auto_discover c.config)
      then (c, w, ok c.config.base_url)
      else if not (str_eq c.resolved_base_url "")
      then (c, w, ok c.resolved_base_url)
      else keep_address c (net.discover w)

  -- The second attempt of `postJSON`, at the address that was found anew.
  unfoldable pub retry_at :
      String → Error → Upload F → Client × W × Result String → Client × W × Result (Unit {0})
  retry_at tried failure up (c, w, err e) = (c, w, err (wrap "hub rediscovery failed" failure))
  retry_at tried failure up (c, w, ok url) =
      if str_eq url tried
      then (c, w, err failure)
      else let (w', r) = post_json_at c url up w in
        (c, w', within "hub request failed after rediscovery" r)

  -- What follows the first attempt.
  unfoldable pub after_first :
      Client → String → Upload F → W × Result (Unit {0}) → Client × W × Result (Unit {0})
  unfolding retry_at
  after_first c url up (w, ok _) = (c, w, ok tt)
  after_first c url up (w, err e) =
      if not (is_auto_discover c.config)
      then (c, w, err e)
      else retry_at url e up (resolve_base_url (invalidate_resolved_base_url url c) w)

  unfoldable pub post_resolved :
      Upload F → Client × W × Result String → Client × W × Result (Unit {0})
  unfolding after_first
  post_resolved up (c, w, err e) = (c, w, err (wrap "resolve hub address" e))
  post_resolved up (c, w, ok url) = after_first c url up (post_json_at c url up w)

  unfoldable pub post_json : Client → Upload F → W → Client × W × Result (Unit {0})
  unfolding post_resolved
  post_json c up w =
      if not (net.encodes up)
      then (c, w, err (message "encode hub request"))
      else post_resolved up (resolve_base_url c w)

  unfoldable pub upload_state :
      Floating F → Time → HudState F → Client → W → Client × W × Result (Unit {0})
  upload_state fl now state c w = elim (validate_state fl state) [
    | err e ↦ (c, w, err (wrap "refuse invalid state upload" e))
    | ok _ ↦
        post_json c
          (state_upload (record { agent_id = c.config.agent_id; sent_at = now; state = state })) w
  ]

  -- An empty version is left out of the JSON.
  unfoldable pub heartbeat : Time → String → Client → W → Client × W × Result (Unit {0})
  heartbeat now version c w =
      post_json c
        (heartbeat_upload (record {
          agent_id = c.config.agent_id;
          sent_at = now;
          agent_version = if str_eq version "" then none else some version;
        }))
        w

  unfoldable pub upload_events : Time → List Event → Client → W → Client × W × Result (Unit {0})
  upload_events now [] c w = (c, w, ok tt)
  upload_events now (e ∷ es) c w = elim (check_upload (e ∷ es)) [
    | err x ↦ (c, w, err x)
    | ok _ ↦
        post_json c
          (event_upload (record { agent_id = c.config.agent_id; sent_at = now; events = e ∷ es })) w
  ]
