-- ===== src/Events/Outbox.antt =====
-- agent/internal/events/outbox.go and hygiene.go: the agent's durable outbox of task events.
-- The SQLite database is a record of its three tables. Each statement is the list function that
-- its SQL text states; whether the database executes it is an argument, `io`. A transaction that
-- is not committed leaves the database as it was. JSON, the texts of times, `julianday` and the
-- random event ids come from outside this repository: the fields of `Env`, and `draw`.
mod Tables
mod Observe
mod Deliver
mod Maintain
pub use Tables.*
unfoldable pub use Observe.*
unfoldable pub use Deliver.*
unfoldable pub use Maintain.*
