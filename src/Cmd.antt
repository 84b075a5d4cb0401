-- ===== src/Cmd.antt =====
-- cmd/mcp-reverse-proxy: the command line and the keys that it names.
pub mod Flags
pub mod Gateway
