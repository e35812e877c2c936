-- ===== src/Program.antt =====
-- The on-chain program (programs/pot_program).
pub mod Error
pub mod State
pub mod Runtime
pub mod Agent
pub mod Registry
pub mod Vrf
pub mod Submit
pub mod Dispute
pub mod Consume
pub mod Resolve
pub mod Addresses
pub mod Execute
pub mod Effect
pub mod Refine
pub mod Invariant
pub mod History
pub mod Behaviour
