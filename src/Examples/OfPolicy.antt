-- ===== src/Examples/OfPolicy.antt =====
-- The theorems on the hub's configuration, at one with a retention of 90 days and one of 200000.
use ai_control_hud.Prelude.{◌≡◌, refl, pos, ok, err, message, arith, trim_text}
use ai_control_hud.Hub.Config.{
  Config, Retention, validate, effective_retention, check_retention, policy_of,
}
use ai_control_hud.Hub.Retention.{validate_policy}
use ai_control_hud.Hub.Agreed.{days_overflow}

abbrev pub plain : Config
plain = record {
  database_path = "hub.sqlite3";
  primary_agent_id = "a1";
  agent_token = "secret";
  stale_after = pos 45000000000;
  hub_id = "central-hub";
  discovery_port = pos 8788;
  http_scheme = "http";
  http_port = pos 8787;
  event_retention_days = pos 90;
  event_retention_min = pos 10;
  event_retention_max = pos 100;
  maintenance_interval = pos 3600000000000;
}

pub plain_accepted : validate plain ≡ ok tt
unfolding validate effective_retention check_retention trim_text
plain_accepted = refl

abbrev long : Retention
long = record {
  days = pos 200000;
  minimum = pos 10;
  maximum = pos 100;
  interval = pos 3600000000000;
}

long_accepted : check_retention long ≡ ok tt
unfolding check_retention
long_accepted = refl

days_overflow_example :
    validate_policy (policy_of long)
    ≡ err (message "event retention max age must be at least 24 hours")
days_overflow_example = days_overflow long 200000 refl (omega arith) (omega arith)
