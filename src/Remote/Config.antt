-- ===== src/Remote/Config.antt =====
-- agent/internal/remote/config.go: where the hub is, and at what pace it is called. A duration is
-- a number of nanoseconds. `url.Parse` is a parameter.
use ai_control_hud.Prelude.{
  ℕ, ℤ, pos, ◌+◌, ◌*◌, ◌^◌, String, Bool, true, false, not, ◌&&◌, ◌||◌, Option, none, some, List,
  [], ◌∷◌, map, leb, ◌==◌, str_eq, codes, trim_end, trim_text, ltb_ℤ, message, ok, err, ◌>>◌,
  reject, if◌then◌else◌,
}
use ai_control_hud.Prelude.Result.{Result}

abbrev pub second : ℕ
second = 10 ^ 9

abbrev pub auto_base_url : String
auto_base_url = "auto://lan"

pub record Config : Type 0 where
  pub base_url : String
  pub agent_id : String
  pub token : String
  pub request_timeout : ℤ
  pub snapshot_interval : ℤ
  pub heartbeat_interval : ℤ
  pub event_scan_interval : ℤ
  pub event_send_interval : ℤ
  pub max_backoff : ℤ

-- strings.EqualFold, for a text of which no letter folds with one outside ASCII.
fold : ℕ → ℕ
fold c = if leb b'A' c && leb c b'Z' then c + 32 else c

same_codes : List ℕ → List ℕ → Bool
same_codes [] [] = true
same_codes (a ∷ l) (b ∷ m) = a == b && same_codes l m
same_codes _ _ = false

unfoldable pub equal_fold : String → String → Bool
unfolding fold same_codes
equal_fold s t = same_codes (map fold (codes s)) (map fold (codes t))

-- `if d <= 0 { d = fallback }`
abbrev pub or_default : ℤ → ℕ → ℤ
or_default d fallback = if ltb_ℤ (pos 0) d then d else pos fallback

unfoldable pub normalize_url : String → String
unfolding trim_text equal_fold trim_end
normalize_url raw =
    let url = trim_text raw in
    if equal_fold url "auto" || equal_fold url auto_base_url
    then auto_base_url
    else trim_end (λ c. c == b'/') url

unfoldable pub normalize : Config → Config
unfolding normalize_url
normalize c = record {
  base_url = normalize_url c.base_url;
  agent_id = trim_text c.agent_id;
  token = trim_text c.token;
  request_timeout = or_default c.request_timeout (4 * second);
  snapshot_interval = or_default c.snapshot_interval (5 * second);
  heartbeat_interval = or_default c.heartbeat_interval (10 * second);
  event_scan_interval = or_default c.event_scan_interval second;
  event_send_interval = or_default c.event_send_interval (2 * second);
  max_backoff = or_default c.max_backoff (30 * second);
}

unfoldable pub is_auto_discover : Config → Bool
is_auto_discover c = str_eq (normalize c).base_url auto_base_url

-- What is read of a *url.URL.
pub record Url : Type 0 where
  pub scheme : String
  pub host : String
  pub raw_query : String
  pub fragment : String

unfoldable pub check_url : Option Url → Result (Unit {0})
check_url none = err (message "AI_CONTROL_HUB_URL must be an absolute http/https URL or auto")
check_url (some u) = do
  reject ((not (str_eq u.scheme "http") && not (str_eq u.scheme "https")) || str_eq u.host "")
      (message "AI_CONTROL_HUB_URL must be an absolute http/https URL or auto")
  reject (not (str_eq u.raw_query "") || not (str_eq u.fragment ""))
      (message "AI_CONTROL_HUB_URL must not contain a query or fragment")

abbrev pub not_positive : ℤ → Bool
not_positive d = not (ltb_ℤ (pos 0) d)

abbrev pub bad_timing : Config → Bool
bad_timing c =
    not_positive c.request_timeout
    || not_positive c.snapshot_interval
    || not_positive c.heartbeat_interval
    || not_positive c.event_scan_interval
    || not_positive c.event_send_interval
    || not_positive c.max_backoff

abbrev pub with_defaults : String → String → String → Config
with_defaults base_url agent_id token = record {
  base_url = base_url;
  agent_id = agent_id;
  token = token;
  request_timeout = pos (4 * second);
  snapshot_interval = pos (5 * second);
  heartbeat_interval = pos (10 * second);
  event_scan_interval = pos second;
  event_send_interval = pos (2 * second);
  max_backoff = pos (30 * second);
}

module _ (parse_url : String → Option Url) where
  check_normal : Config → Result (Unit {0})
  unfolding check_url
  check_normal c = do
    reject (str_eq c.base_url "")
        (message "AI_CONTROL_HUB_URL is required when remote hub upload is enabled")
    if str_eq c.base_url auto_base_url then ok tt else check_url (parse_url c.base_url)
    reject (str_eq c.agent_id "") (message "AI_CONTROL_HUB_AGENT_ID must not be empty")
    reject (str_eq c.token "")
        (message "AI_CONTROL_HUB_TOKEN is required when remote hub upload is enabled")
    reject (bad_timing c) (message "remote hub timing values must be positive")

  unfoldable pub validate : Config → Result (Unit {0})
  unfolding check_normal
  validate c = check_normal (normalize c)

  unfoldable pub new_config : String → String → String → Result Config
  new_config base_url agent_id token =
      let c = normalize (with_defaults base_url agent_id token) in validate c >> ok c

  -- The three variables of the environment; none where the hub is not configured.
  unfoldable pub from_environment : String → String → String → Result (Option Config)
  from_environment raw_url raw_agent raw_token =
      let url = trim_text raw_url in
      let token = trim_text raw_token in
      let agent = trim_text raw_agent in
      if str_eq url "" && str_eq token ""
      then ok none
      else let c = with_defaults url (if str_eq agent "" then "desktop-main" else agent) token in
        validate c >> ok (some c)
