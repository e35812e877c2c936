-- ===== src/Program/Invariant.antt =====
-- What holds of every ledger that the program can reach.
pub mod Reachable
pub mod DeadFields
pub mod Disputes
pub mod Registration
pub mod Placement
pub mod Solvency
pub mod Counts
pub mod Randomness
pub mod Reached
