-- ===== src/Hub/Server.antt =====
-- agent/internal/hub/server.go and state_cache.go: the hub's HTTP handlers over its store and its
-- cache of the primary agent's state. A handler runs alone here; Hub/Cached/Crossed.antt has two of
-- them at once.
mod Types
mod Project
mod Post
mod Query
unfoldable pub use Types.*
unfoldable pub use Project.*
unfoldable pub use Post.*
unfoldable pub use Query.*
