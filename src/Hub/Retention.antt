-- ===== src/Hub/Retention.antt =====
-- agent/internal/hub/retention.go: pruning of the hub's event log in bounded batches. The numbers
-- of a policy are natural: a negative one does not pass `Validate`.
mod Rules
mod Batch
mod Prune
unfoldable pub use Rules.*
unfoldable pub use Batch.*
unfoldable pub use Prune.*
