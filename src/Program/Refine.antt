-- ===== src/Program/Refine.antt =====
-- The instructions of the program against the specification.
pub mod Base
pub mod Agents
pub mod Registry
pub mod Thoughts
pub mod Disputes
pub mod Payouts
pub mod All
