-- ===== src/Hub.antt =====
-- agent/internal/hub: the central hub.
pub mod Config
pub mod Models
pub mod Store
pub mod Clone
pub mod Server
pub mod Log
pub mod Cursor
pub mod Cached
pub mod Retention
pub mod Retained
pub mod Agreed
