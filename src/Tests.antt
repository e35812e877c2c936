-- ===== src/Tests.antt =====
-- The theorems at concrete inputs, and runs of the definitions.
mod Platform
mod Scenario
mod Witnesses
mod Disputes
mod Acceptance
mod Filing
mod Hashing
mod Decoding
mod Traces
mod Live
