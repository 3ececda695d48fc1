-- ===== src/Hub/Store.antt =====
-- agent/internal/hub/store.go: the hub's SQLite database. Each SQL statement is the list function
-- that its text states; whether the database executes it is an argument, `io`. JSON and the texts
-- of times come from outside this repository: the fields of `HubEnv`.
mod Tables
mod Record
mod Load
pub use Tables.*
unfoldable pub use Record.*
unfoldable pub use Load.*
