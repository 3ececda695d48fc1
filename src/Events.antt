-- ===== src/Events.antt =====
-- agent/internal/events/event.go: terminal task events, and the check of one.
pub mod Outbox
pub mod Emission
pub mod Baseline
pub mod Hygiene
use ai_control_hud.Prelude.{
  ℕ, String, Bool, true, false, not, ◌||◌, Option, ltb, str_eq, codes, size, message, ok, err,
  if◌then◌else◌,
}
use ai_control_hud.Prelude.Result.{Result}
use ai_control_hud.Domain.{Time, TaskStatus, task_eq, is_zero}

pub data EventType : Type 0 where
  completed failed : EventType
  other : String → EventType

pub record Task : Type 0 where
  pub id : String
  pub title : String
  pub workspace : Option String
  pub status : TaskStatus

pub record Event : Type 0 where
  pub event_id : String
  pub event_type : EventType
  pub occurred_at : Time
  pub task : Task

-- The `switch e.Type`.
validate_type : EventType → TaskStatus → Result (Unit {0})
validate_type EventType.completed s =
    if not (task_eq s TaskStatus.completed)
    then err (message "task.completed requires completed task status")
    else ok tt
validate_type EventType.failed s =
    if not (task_eq s TaskStatus.failed)
    then err (message "task.failed requires failed task status")
    else ok tt
validate_type (EventType.other t) s = err (message "unsupported event type")

unfoldable pub validate : Event → Result (Unit {0})
unfolding validate_type
validate e =
    if ltb (size (codes e.event_id)) 8
    then err (message "eventId is required")
    else if is_zero e.occurred_at
    then err (message "occurredAt is required")
    else if str_eq e.task.id "" || str_eq e.task.title ""
    then err (message "event task requires id and title")
    else validate_type e.event_type e.task.status
