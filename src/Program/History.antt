-- ===== src/Program/History.antt =====
-- What holds between a ledger and those that follow it.
pub mod Step
pub mod Reached
pub mod Lifecycle
