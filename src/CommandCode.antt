-- ===== src/CommandCode.antt =====
-- agent/internal/collector/commandcode: the usage that the collector reads at the billing service.
pub mod Values
pub mod Billing
pub mod Usage
pub mod Shown
