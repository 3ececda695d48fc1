-- ===== src/Hub/Log.antt =====
-- The hub's event log under `RecordEvents` of agent/internal/hub/store.go.
pub mod Sound
pub mod Inserts
pub mod Redelivery
