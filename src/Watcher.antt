-- ===== src/Watcher.antt =====
-- The off-chain watcher (watcher).
pub mod Types
pub mod Sha256
pub mod Filer
pub mod Subscribe
pub mod Stream
pub mod Fetch
pub mod Verify
pub mod Soft
pub mod Pipeline
pub mod Startup
