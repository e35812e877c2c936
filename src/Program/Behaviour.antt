-- ===== src/Program/Behaviour.antt =====
-- What the instructions do on the chains that the program reaches.
pub mod Consumption
pub mod Withdrawal
pub mod Admission
pub mod Opening
pub mod Judgement
pub mod Finalization
pub mod Verdict
pub mod Burn
pub mod Slashing
