-- ===== src/Hub/Models.antt =====
-- agent/internal/hub/models.go: what the agent posts to the hub, and its checks.
use ai_control_hud.Prelude.{
  ℕ, String, Bool, false, ◌||◌, Option, none, some, List, [], ◌∷◌, length, ltb, ◌==◌, codes, size,
  trim, message, ok, err, ◌>>◌, reject, within, if◌then◌else◌,
}
use ai_control_hud.Prelude.Result.{Result}
use ai_control_hud.Domain.{Time, HudState, Floating, is_zero}
use ai_control_hud.Domain.Validate.{validate as validate_state}
use ai_control_hud.Events.{Event, validate as validate_basic}

pub record StateEnvelope (F : Type 0) : Type 0 where
  pub agent_id : String
  pub sent_at : Time
  pub state : HudState F

pub record Heartbeat : Type 0 where
  pub agent_id : String
  pub sent_at : Time
  pub agent_version : Option String

pub record EventBatch : Type 0 where
  pub agent_id : String
  pub sent_at : Time
  pub events : List Event

-- len(s)
abbrev pub len : String → ℕ
len s = size (codes s)

-- The trimmed text is only checked: the callers go on with the text as it was sent.
unfoldable pub validate_agent_id : String → Result (Unit {0})
validate_agent_id value =
    let n = size (trim (codes value)) in
    if n == 0
    then err (message "agentId is required")
    else if ltb 128 n
    then err (message "agentId exceeds 128 characters")
    else ok tt

abbrev longer : ℕ → Option String → Bool
longer n none = false
longer n (some s) = ltb n (len s)

unfoldable pub validate_event : Event → Result (Unit {0})
validate_event e = do
  validate_basic e
  reject (ltb 128 (len e.event_id)) (message "eventId exceeds 128 characters")
  reject (ltb 256 (len e.task.id)) (message "task.id exceeds 256 characters")
  reject (ltb 500 (len e.task.title)) (message "task.title exceeds 500 characters")
  reject (longer 500 e.task.workspace) (message "task.workspace exceeds 500 characters")

unfoldable pub validate_events : List Event → Result (Unit {0})
validate_events [] = ok tt
validate_events (e ∷ es) = within "events" (validate_event e) >> validate_events es

unfoldable pub validate_batch : EventBatch → Result (Unit {0})
validate_batch b = do
  validate_agent_id b.agent_id
  reject (is_zero b.sent_at) (message "sentAt is required")
  reject (ltb (length b.events) 1 || ltb 100 (length b.events))
      (message "events must contain 1..100 items")
  validate_events b.events

unfoldable pub validate_heartbeat : Heartbeat → Result (Unit {0})
validate_heartbeat h = do
  validate_agent_id h.agent_id
  reject (is_zero h.sent_at) (message "sentAt is required")
  reject (longer 64 h.agent_version) (message "agentVersion exceeds 64 characters")

unfoldable pub validate_envelope : {F : Type 0} → Floating F → StateEnvelope F → Result (Unit {0})
validate_envelope fl e = do
  validate_agent_id e.agent_id
  reject (is_zero e.sent_at) (message "sentAt is required")
  within "state" (validate_state fl e.state)
