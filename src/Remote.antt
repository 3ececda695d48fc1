-- ===== src/Remote.antt =====
-- agent/internal/remote: the agent's side of the connection to the hub.
pub mod Config
pub mod Backoff
pub mod Client
pub mod Journey
pub mod Delivery
pub mod Wire
pub mod Grows
pub mod Landing
pub mod Outflow
pub mod Schedule
pub mod Uploads
pub mod Keeps
pub mod Safety
pub mod Progress
pub mod Drain
pub mod Empties
