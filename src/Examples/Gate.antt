-- ===== src/Examples/Gate.antt =====
-- internal/frontend/gate.go at concrete inputs.
use mcp_reverse_proxy.Prelude.{
  ◌≡◌, refl, ◌↔◌, Option, none, some, [], if◌then◌else◌, ◌==◌, nat_eq, list_eq, Bytes, is_empty,
  codes,
}
use mcp_reverse_proxy.Frontend.Gate.{Call, HttpRequest, gate, passed, handshake_removed}
use mcp_reverse_proxy.Frontend.Gate.Passed.{Passes, gate_iff}

-- A decoder that reads two documents.
abbrev decode_two : Bytes → Option Call
decode_two body =
    if body == codes "list"
    then some (record { id = codes "1"; method = codes "tools/list"; meta = [] })
    else if body == codes "init"
    then some (record { id = codes "2"; method = codes "initialize"; meta = [] })
    else none

abbrev no_text : Bytes → Option Bytes
no_text raw = none

abbrev post : Bytes → HttpRequest
post body = record { method = codes "POST"; version_header = codes "2026-07-28"; body = some body }

handshake_test : gate decode_two no_text (post (codes "init")) ≡ handshake_removed (codes "2")
unfolding gate mcp_reverse_proxy.Frontend.Gate.gate_body mcp_reverse_proxy.Frontend.Gate.gate_peeked
    mcp_reverse_proxy.Frontend.Gate.peek mcp_reverse_proxy.Frontend.Gate.peeked is_empty
    mcp_reverse_proxy.Frontend.Gate.gate_call
handshake_test = refl

gate_iff_example :
    (gate decode_two no_text (post (codes "list")) ≡ passed)
    ↔ Passes decode_two no_text (post (codes "list"))
gate_iff_example = gate_iff decode_two no_text (post (codes "list"))
