-- ===== src/Hub/Config.antt =====
-- agent/internal/hub/config.go: `Config` with its `Validate` and `effectiveRetention`, and the
-- policy that `RetentionPolicyFromConfig` of retention.go makes of it. An `int` is a ℤ, and so is a
-- duration, as its nanoseconds; that the product of days and a day wraps is written out.
use ai_control_hud.Prelude.{
  ℕ, ℤ, pos, negsuc, ◌*◌, ◌^◌, ◌%◌, String, Bool, not, ◌&&◌, ◌||◌, ltb, str_eq, ltb_ℤ, trim_text,
  message, ◌>>◌, reject, if◌then◌else◌,
}
use ai_control_hud.Prelude.Result.{Result}
use ai_control_hud.Hub.Retention.{Policy, day}

pub record Config : Type 0 where
  pub database_path : String
  pub primary_agent_id : String
  pub agent_token : String
  pub stale_after : ℤ
  pub hub_id : String
  pub discovery_port : ℤ
  pub http_scheme : String
  pub http_port : ℤ
  pub event_retention_days : ℤ
  pub event_retention_min : ℤ
  pub event_retention_max : ℤ
  pub maintenance_interval : ℤ

abbrev is_zero_int : ℤ → Bool
is_zero_int d = not (ltb_ℤ d (pos 0)) && not (ltb_ℤ (pos 0) d)

-- The four values that `effectiveRetention` returns.
pub record Retention : Type 0 where
  pub days : ℤ
  pub minimum : ℤ
  pub maximum : ℤ
  pub interval : ℤ

unfoldable pub effective_retention : Config → Retention
effective_retention c =
    if is_zero_int c.event_retention_days
      && is_zero_int c.event_retention_min
      && is_zero_int c.event_retention_max
      && is_zero_int c.maintenance_interval
    then record {
      days = pos 90;
      minimum = pos 10000;
      maximum = pos 100000;
      interval = pos (6 * 3600 * 10 ^ 9);
    }
    else record {
      days = c.event_retention_days;
      minimum = c.event_retention_min;
      maximum = c.event_retention_max;
      interval = c.maintenance_interval;
    }

abbrev pub bad_port : ℤ → Bool
bad_port p = ltb_ℤ p (pos 1) || ltb_ℤ (pos 65535) p

unfoldable pub check_retention : Retention → Result (Unit {0})
check_retention r = do
  reject (ltb_ℤ r.days (pos 1)) (message "HUD_HUB_EVENT_RETENTION_DAYS must be at least 1")
  reject (ltb_ℤ r.minimum (pos 0)) (message "HUD_HUB_EVENT_RETENTION_MIN must be non-negative")
  reject (ltb_ℤ r.maximum (pos 1)) (message "HUD_HUB_EVENT_RETENTION_MAX must be at least 1")
  reject (ltb_ℤ r.maximum r.minimum) (
      message
        "HUD_HUB_EVENT_RETENTION_MAX must be greater than or equal to HUD_HUB_EVENT_RETENTION_MIN")
  reject (ltb_ℤ r.interval (pos (60 * 10 ^ 9)))
      (message "Hub maintenance interval must be at least 1 minute")

unfoldable pub validate : Config → Result (Unit {0})
validate c = do
  reject (str_eq (trim_text c.database_path) "") (message "HUD_HUB_DB must not be empty")
  reject (str_eq (trim_text c.primary_agent_id) "") (message "HUD_HUB_AGENT_ID must not be empty")
  reject (str_eq (trim_text c.agent_token) "") (message "HUD_HUB_AGENT_TOKEN is required")
  reject (ltb_ℤ c.stale_after (pos (5 * 10 ^ 9)))
      (message "HUD_HUB_STALE_AFTER_SECONDS must be at least 5")
  reject (str_eq (trim_text c.hub_id) "") (message "HUD_HUB_ID must not be empty")
  reject (not (str_eq c.http_scheme "http") && not (str_eq c.http_scheme "https"))
      (message "HUD_HUB_HTTP_SCHEME must be http or https")
  reject (bad_port c.discovery_port) (message "HUD_HUB_DISCOVERY_PORT must be within 1..65535")
  reject (bad_port c.http_port) (message "HUD_HUB_HTTP_PORT must be within 1..65535")
  check_retention (effective_retention c)

-- A product of a count and a day in 64 bits; what wraps to a negative duration is 0 here, which
-- the policy's check refuses in the same way.
abbrev pub as_duration : ℕ → ℕ
as_duration n = let w = n % 2 ^ 64 in if ltb w (2 ^ 63) then w else 0

abbrev pub nat_of : ℤ → ℕ
nat_of (pos n) = n
nat_of (negsuc n) = 0

-- The values are those of a configuration that passed `validate`, so none is negative.
unfoldable pub policy_of : Retention → Policy
policy_of r = record {
  max_age = as_duration (nat_of r.days * day);
  min_events = nat_of r.minimum;
  max_events = nat_of r.maximum;
  batch_size = 1000;
}
