-- ===== src/Frontend/Gate.antt =====
-- internal/frontend/gate.go: the requests that are answered before the SDK handler sees them. The
-- JSON decoder is a parameter.
pub mod Passed
use mcp_reverse_proxy.Prelude.{
  not, ◌&&◌, ◌||◌, Option, none, some, List, [], ◌∷◌, if◌then◌else◌, ◌==◌, nat_eq, list_eq, Bytes,
  is_empty, contains, codes, non_empty,
}
use mcp_reverse_proxy.Prelude.Maps.{Map, lookup}

abbrev pub supported_versions : List Bytes
supported_versions = codes "2026-07-28" ∷ []

abbrev pub removed_methods : List Bytes
removed_methods =
    codes "ping"
    ∷ codes "logging/setLevel"
    ∷ codes "resources/subscribe"
    ∷ codes "resources/unsubscribe"
    ∷ []

abbrev pub meta_key_protocol_version : Bytes
meta_key_protocol_version = codes "io.modelcontextprotocol/protocolVersion"

-- `call`: JSON values are their bytes.
pub record Call : Type 0 where
  pub id : Bytes
  pub method : Bytes
  pub meta : Map Bytes Bytes

-- What the gate reads of a request; `body` is `none` if it cannot be read.
pub record HttpRequest : Type 0 where
  pub method : Bytes
  pub version_header : Bytes
  pub body : Option Bytes

-- What becomes of a request: the two methods that are not found are status 404, the others that
-- are refused status 400.
pub data Gated : Type 0 where
  passed : Gated
  bad_request : Gated
  handshake_removed : Bytes → Gated
  method_removed : Bytes → Bytes → Gated
  header_missing : Bytes → Gated
  header_mismatch : Bytes → Bytes → Bytes → Gated
  version_unsupported : Bytes → Bytes → Gated

-- `decode` is `json.Unmarshal` into a call, and `decode_text` into a string.
module _ (decode : Bytes → Option Call) (decode_text : Bytes → Option Bytes) where
  unfoldable pub or_blank : Option Bytes → Bytes
  or_blank (some s) = s
  or_blank none = []

  unfoldable pub declared_text : Option Bytes → Bytes
  declared_text none = []
  declared_text (some raw) = or_blank (decode_text raw)

  -- `declared`.
  unfoldable pub declared : Call → Bytes
  declared c = declared_text (lookup meta_key_protocol_version c.meta)

  -- `requested`, of a call with this header.
  unfoldable pub requested : Call → Bytes → Bytes
  requested c header = if non_empty (declared c) then declared c else header

  unfoldable pub peeked : Option Call → Option Call
  peeked none = none
  peeked (some c) = if is_empty c.method || is_empty c.id then none else some c

  -- `peek`.
  unfoldable pub peek : Bytes → Option Call
  peek body = peeked (decode body)

  -- The cases of the gate, in their order.
  unfoldable pub gate_call : Call → Bytes → Gated
  gate_call c header =
      if c.method == codes "initialize"
      then handshake_removed c.id
      else if contains removed_methods c.method
      then method_removed c.id c.method
      else if is_empty header
      then header_missing c.id
      else if non_empty (declared c) && not (declared c == header)
      then header_mismatch c.id header (declared c)
      else if not (contains supported_versions (requested c header))
      then version_unsupported c.id (requested c header)
      else passed

  unfoldable pub gate_peeked : Bytes → Option Call → Gated
  gate_peeked header none = passed
  gate_peeked header (some c) = gate_call c header

  unfoldable pub gate_body : Bytes → Option Bytes → Gated
  gate_body header none = bad_request
  gate_body header (some body) = gate_peeked header (peek body)

  -- `gate`.
  unfoldable pub gate : HttpRequest → Gated
  gate r = if not (r.method == codes "POST") then passed else gate_body r.version_header r.body
