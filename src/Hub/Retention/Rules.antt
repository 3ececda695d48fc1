-- ===== src/Hub/Retention/Rules.antt =====
-- `RetentionPolicy` and its `Validate` of agent/internal/hub/retention.go.
use ai_control_hud.Prelude.{ℕ, ◌*◌, ◌^◌, ◌||◌, ltb, message, ◌>>◌, reject}
use ai_control_hud.Prelude.Result.{Result}

abbrev pub day : ℕ
day = 24 * 3600 * 10 ^ 9

-- The code's numbers may be negative, and `Validate` refuses each that is: its check of the minimum
-- alone has no place here.
pub record Policy : Type 0 where
  pub max_age : ℕ
  pub min_events : ℕ
  pub max_events : ℕ
  pub batch_size : ℕ

unfoldable pub validate_policy : Policy → Result (Unit {0})
validate_policy p = do
  reject (ltb p.max_age day) (message "event retention max age must be at least 24 hours")
  reject (ltb p.max_events 1) (message "event retention maximum must be positive")
  reject (ltb p.max_events p.min_events)
      (message "event retention maximum must be greater than or equal to minimum")
  reject (ltb p.batch_size 1 || ltb 10000 p.batch_size)
      (message "event retention batch size must be within 1..10000")
