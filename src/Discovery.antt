-- ===== src/Discovery.antt =====
-- agent/internal/hub/discovery.go and agent/internal/discovery/discovery.go: the hub answers a
-- probe with its announcement, and the agent takes the first answer that it accepts. JSON and the
-- decimal digits come from outside; so does what arrives at the socket before the deadline.
pub mod Found
use ai_control_hud.Prelude.{
  ℕ, ℤ, pos, String, Bool, not, ◌&&◌, ◌||◌, Option, none, some, List, [], ◌∷◌, ltb_ℤ, str_eq,
  str_append, trim_text, cut, message, ok, err, ◌>>=◌, if◌then◌else◌,
}
use ai_control_hud.Prelude.Result.{Result}
use ai_control_hud.Hub.Config.{Config, validate, bad_port}
use ai_control_hud.Zcode.Status.{plain, is_one_of}

-- `DiscoveryAnnouncement` of the hub and `announcement` of the agent.
pub record Announcement : Type 0 where
  pub service : String
  pub schema_version : ℤ
  pub hub_id : String
  pub scheme : String
  pub http_port : ℤ
  pub hub_version : String

pub record Codec : Type 0 where
  pub encode : Announcement → String
  pub decode : String → Option Announcement
  pub decimal : ℤ → String

abbrev pub discovery_service_name : String
discovery_service_name = "ai-control-hud"

abbrev pub discovery_probe : String
discovery_probe = "AI_CONTROL_HUD_DISCOVER_V1"

unfoldable pub announcement_of : Config → String → Announcement
announcement_of c version = record {
  service = discovery_service_name;
  schema_version = pos 1;
  hub_id = c.hub_id;
  scheme = c.http_scheme;
  http_port = c.http_port;
  hub_version = trim_text version;
}

-- `StartDiscovery`, but for the socket: none if the discovery is not enabled.
unfoldable pub start_discovery : Codec → Bool → Config → String → Result (Option String)
unfolding announcement_of
start_discovery codec enabled c version =
    if not enabled
    then ok none
    else validate c >>= λ _. ok (some (codec.encode (announcement_of c version)))

-- What `serve` answers to a datagram, of which it reads 512 bytes.
unfoldable pub serve : String → String → Option String
serve announcement datagram =
    if str_eq (cut 512 datagram) discovery_probe then some announcement else none

-- Result of the agent
pub record Discovered : Type 0 where
  pub base_url : String
  pub hub_id : String
  pub hub_version : String
  pub address : String

abbrev pub request_payload : String
request_payload = "AI_CONTROL_HUD_DISCOVER_V1"

-- strings.ToLower(strings.TrimSpace(scheme)), if it is one of the two.
abbrev scheme_of : String → Option String
scheme_of raw =
    if is_one_of ("http" ∷ []) (plain raw)
    then some "http"
    else if is_one_of ("https" ∷ []) (plain raw)
    then some "https"
    else none

abbrev is_schema : ℤ → Bool
is_schema n = not (ltb_ℤ n (pos 1)) && not (ltb_ℤ (pos 1) n)

-- `fmt.Sprintf("%s://%s:%d", …)`
abbrev pub base_url_of : Codec → String → String → ℤ → String
base_url_of codec scheme address port =
    str_append scheme (str_append "://" (str_append address (str_append ":" (codec.decimal port))))

-- From the last checks on: `source` is the text of the sender's IPv4 address, if it has one.
accept : Codec → Announcement → Option String → Option String → Result Discovered
accept codec a none source = err (message "hub discovery response has invalid scheme")
accept codec a (some scheme) source =
    if bad_port a.http_port
    then err (message "hub discovery response has invalid HTTP port")
    else elim source [
      | none ↦ err (message "hub discovery response has invalid source address")
      | some address ↦ ok (record {
        base_url = base_url_of codec scheme address a.http_port;
        hub_id = trim_text a.hub_id;
        hub_version = trim_text a.hub_version;
        address = address;
      })
    ]

check : Codec → Option Announcement → Option String → Result Discovered
unfolding accept
check codec none source = err (message "invalid JSON")
check codec (some a) source =
    if not (str_eq a.service discovery_service_name) || not (is_schema a.schema_version)
    then err (message "unsupported hub discovery response")
    else if str_eq (trim_text a.hub_id) ""
    then err (message "hub discovery response is missing hub id")
    else accept codec a (scheme_of a.scheme) source

unfoldable pub parse_response : Codec → String → Option String → Result Discovered
unfolding check plain is_one_of
parse_response codec text source = check codec (codec.decode text) source

-- What a read of the agent's socket gives.
pub data Arrival : Type 0 where
  timed_out broken : Arrival
  datagram : String → Option String → Arrival

-- The loop of `Discover` over what arrives before the deadline; a read takes 2048 bytes.
unfoldable pub discover : Codec → List Arrival → Result Discovered
unfolding parse_response
discover codec [] = err (message "no AI Control Hub discovered on the local network")
discover codec (timed_out ∷ rest) = discover codec rest
discover codec (broken ∷ rest) = err (message "read hub discovery response")
discover codec (datagram text source ∷ rest) = elim (parse_response codec (cut 2048 text) source) [
  | err e ↦ discover codec rest
  | ok found ↦ ok found
]
