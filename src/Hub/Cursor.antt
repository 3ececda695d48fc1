-- ===== src/Hub/Cursor.antt =====
-- Reading the hub's log by pages: `ListEvents` of agent/internal/hub/store.go and the `nextAfter` of
-- `handleEvents` in agent/internal/hub/server.go.
pub mod Suffix
pub mod Pages
