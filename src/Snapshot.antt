-- ===== src/Snapshot.antt =====
-- agent/internal/store/snapshot.go: the agent's one copy of the state, and its updates.
-- The mutex makes each method one step; a method returns the new state and its error.
-- Pointers are values here, so `clone` is followed field by field and aliasing is not modelled.
mod Clone
mod Store
pub mod Laws
pub use Clone.{clone, clone-eq}
unfoldable pub use Store.*
