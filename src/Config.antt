-- ===== src/Config.antt =====
-- internal/config: the server descriptions, the validation of a server set, a configuration file,
-- the x-mcp-config header and the fingerprint of a server.
pub mod Types
pub mod Env
pub mod Validate
pub mod Resolve
pub mod Document
pub mod File
pub mod Fingerprint
