-- ===== src/Hub/Cached.antt =====
-- The cache of agent/internal/hub/state_cache.go against the database behind it.
pub mod Loads
pub mod Agrees
pub mod Served
pub mod Crossed
