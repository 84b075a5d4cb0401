-- ===== src/Backend.antt =====
-- internal/backend: sessions with backends.
pub mod Connect
pub mod Interpose
pub mod Normalize
pub mod Session
pub mod Types
