-- ===== src/Examples.antt =====
-- Concrete inputs, and the theorems of the development at them.
pub mod Samples
pub mod OfSnapshots
pub mod OfOutbox
pub mod OfHub
mod OfRetention
mod OfRemote
mod OfCollect
mod OfTurns
pub mod OfCollector
mod OfReads
mod OfCrossing
mod OfUsage
pub mod OfPolicy
mod OfDiscovery
