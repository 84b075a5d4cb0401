-- ===== src/Frontend.antt =====
-- internal/frontend: from a request to the servers that answer it.
pub mod Request
pub mod Gate
pub mod Tenant
pub mod Answers
