-- ===== src/Events/Emission.antt =====
-- What `Observe` of agent/internal/events/outbox.go appends to the outbox, against a list of rows
-- that is read off the snapshot and the baseline alone.
pub mod Spec
pub mod Rounds
pub mod Exact
