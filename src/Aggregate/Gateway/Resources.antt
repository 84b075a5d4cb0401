-- ===== src/Aggregate/Gateway/Resources.antt =====
-- internal/aggregate/gateway.go and uri.go: a listed resource is read from its own backend.
use mcp_reverse_proxy.Prelude.Maps.{lookup}
use mcp_reverse_proxy.Aggregate.Gateway.{Gateway, read_resource, relay, read_unwrapped, read_from}
use mcp_reverse_proxy.Aggregate.Uri.{unreserved, Url}
use mcp_reverse_proxy.Aggregate.Gateway.{relay, Gateway, read_from, read_unwrapped}
use mcp_reverse_proxy.Aggregate.Surface.{rename_resource}
use mcp_reverse_proxy.Prelude.{
  ◌<◌, ◌≡◌, refl, true, Option, some, nat_eq, list_eq, Bytes, All, non_empty,
}
use mcp_reverse_proxy.Prelude.Int.{ℤ}
use mcp_reverse_proxy.Backend.Types.{Source, Resource}
use mcp_reverse_proxy.Aggregate.Uri.RoundTrip.{ParsesWrapped, unwrap_uri-wrap_uri}

-- A resource that a backend of the gateway offers is read, under the URI that the gateway lists it
-- by, from that backend under its own URI, if the identifier is not empty and made of unreserved
-- bytes, and the URI is not empty.
pub read_resource-rename_resource :
    {F : Type 0} (protocol_code : F → Option ℤ) (parse : Bytes → Option Url) (g : Gateway F)
    (id : Bytes) (s : Source F) (r : Resource)
    → ParsesWrapped parse
    → lookup id g.sources ≡ some s
    → non_empty id ≡ true
    → All (λ c. unreserved c ≡ true) id
    → non_empty r.uri ≡ true
    → All (λ c. c < 256) r.uri
    → read_resource protocol_code parse g (rename_resource id r).uri
      ≡ relay protocol_code id (s.read_resource r.uri)
unfolding read_resource rename_resource read_unwrapped read_from
read_resource-rename_resource protocol_code parse g id s r parses known named host given bytes =
    rw (unwrap_uri-wrap_uri parse parses id r.uri named host given bytes, known) refl
