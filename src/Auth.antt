-- ===== src/Auth.antt =====
-- internal/auth: who a caller is, and how that is verified.
pub mod Challenge
pub mod Claims
pub mod Words
pub mod Verify
pub mod Metadata
pub mod Require
