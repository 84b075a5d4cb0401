-- ===== src/Pool.antt =====
-- internal/pool: the process pool, one backend for each subject and configuration.
pub mod Types
pub mod Lifecycle
pub mod Listeners
pub mod Entries
pub mod Counts
pub mod Eviction
pub mod Ops
pub mod Steps
pub mod Process
pub mod Stop
pub mod Handles
