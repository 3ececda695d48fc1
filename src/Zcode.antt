-- ===== src/Zcode.antt =====
-- agent/internal/collector/zcode: what the ZCode collector concludes from the turn log and the two
-- databases that it reads.
pub mod Status
pub mod TurnLog
pub mod Activity
pub mod Since
pub mod Values
pub mod Counts
pub mod Database
pub mod Goal
pub mod Goals
pub mod Sessions
pub mod TaskIndex
pub mod Collector
pub mod Shows
pub mod Loops
pub mod Tally
pub mod Gathers
pub mod Runs
pub mod Apart
pub mod Whole
pub mod Live
pub mod Collected
pub mod History
pub mod Feed
pub mod Errors
pub mod Once
pub mod Ended
pub mod Environment
pub mod Lines
pub mod Counted
