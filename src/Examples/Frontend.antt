-- ===== src/Examples/Frontend.antt =====
-- internal/frontend at concrete inputs.
use mcp_reverse_proxy.Prelude.{
  Bool, false, Option, none, some, if◌then◌else◌, ◌==◌, nat_eq, list_eq, Bytes, codes,
}
use mcp_reverse_proxy.Config.Types.{Header}
use mcp_reverse_proxy.Examples.Config.{header}

-- A decoder that reads the one document `{}` as the header of Examples/Config.
abbrev pub decode_one : Bytes → Option (Header × Bool)
decode_one raw = if raw == codes "{}" then some (header, false) else none
