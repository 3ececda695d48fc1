-- ===== src/Hub/Retained.antt =====
-- What pruning by agent/internal/hub/retention.go keeps of an agent's log.
pub mod Thresholds
pub mod Victims
pub mod Owners
pub mod Newest
pub mod Settled
pub mod Kept
pub mod Runs
pub mod Ends
pub mod Results
