-- ===== src/Aggregate/Gateway.antt =====
-- internal/aggregate/gateway.go: several backends presented as one.
pub mod Routed
pub mod Resources
pub mod Gathered
use mcp_reverse_proxy.Prelude.{
  Bool, false, Option, none, some, List, [], map, if◌then◌else◌, Result, ok, err, ◌>>=◌, nat_eq,
  list_eq, Bytes,
}
use mcp_reverse_proxy.Prelude.Int.{ℤ, pos, negsuc, gtb}
use mcp_reverse_proxy.Prelude.Maps.{Map, keys, lookup}
use mcp_reverse_proxy.Prelude.Sorting.{bytes_order, sort_by}
use mcp_reverse_proxy.Backend.Normalize.{int_eq}
use mcp_reverse_proxy.Backend.Types.{
  Source, ToolList, ToolResult, PromptList, PromptResult, ResourceList, ResourceTemplateList,
  ResourceContents,
}
use mcp_reverse_proxy.Aggregate.Name.{new_router, route}
use mcp_reverse_proxy.Aggregate.Uri.{Url, unwrap_uri}
use mcp_reverse_proxy.Aggregate.Surface.{Listing, Surface, AssembleError, assemble}

-- -32601.
abbrev pub code_method_not_found : ℤ
code_method_not_found = negsuc 32600

-- Five seconds, in nanoseconds.
abbrev pub default_list_timeout : ℤ
default_list_timeout = pos 5000000000

-- `Gateway`, over backends that fail with an `F`; the router is its list of identifiers.
pub record Gateway (F : Type 0) : Type 0 where
  pub sources : Map Bytes (Source F)
  pub router : List Bytes
  pub timeout : ℤ

-- `New`.
unfoldable pub new_gateway : {F : Type 0} → Map Bytes (Source F) → ℤ → Gateway F
new_gateway sources timeout = record {
  sources = sources;
  router = new_router (keys sources);
  timeout = if gtb timeout (pos 0) then timeout else default_list_timeout;
}

-- `panicked` is a call of a method of a nil interface.
pub data GatewayError (F : Type 0) : Type 0 where
  not_found : GatewayError F
  bad_uri : GatewayError F
  unknown_backend : Bytes → GatewayError F
  answered : F → GatewayError F
  backend_unavailable : Bytes → F → GatewayError F
  panicked : GatewayError F

unfoldable pub empty_listing : {F : Type 0} → Bytes → Listing F
empty_listing id = record {
  backend = id;
  tools = [];
  prompts = [];
  resources = [];
  templates = [];
  ttl_ms = pos 0;
  failure = none;
}

unfoldable pub gathered : {F : Type 0} → Result (Listing F) (Listing F) → Listing F
gathered (ok l) = l
gathered (err l) = l

unfoldable pub take_tools : {F : Type 0} → ToolList → Listing F → Listing F
take_tools r l = record l { tools = r.tools; ttl_ms = r.cache.ttl_ms }

unfoldable pub take_prompts : {F : Type 0} → PromptList → Listing F → Listing F
take_prompts r l = record l { prompts = r.prompts }

unfoldable pub take_resources : {F : Type 0} → ResourceList → Listing F → Listing F
take_resources r l = record l { resources = r.resources }

unfoldable pub take_templates : {F : Type 0} → ResourceTemplateList → Listing F → Listing F
take_templates r l = record l { templates = r.templates }

-- `protocol_code` is `errors.As` with a `*backend.ProtocolError`: the code, if there is one.
module _ {F : Type 0} (protocol_code : F → Option ℤ) where
  method_missing : Option ℤ → Bool
  method_missing none = false
  method_missing (some code) = int_eq code code_method_not_found

  -- `absent`.
  unfoldable pub absent : F → Bool
  unfolding method_missing
  absent e = method_missing (protocol_code e)

  -- One request of `list`: an absent kind is empty, and a failure ends the listing.
  unfoldable pub gather :
      {R : Type 0}
      → (R → Listing F → Listing F)
      → Result F R
      → Listing F
      → Result (Listing F) (Listing F)
  gather add (ok r) l = ok (add r l)
  gather add (err e) l = if absent e then ok l else err (record l { failure = some e })

  -- `list`.
  unfoldable pub list : Bytes → Source F → Listing F
  list id s = gathered (do
    l ← gather take_tools s.list_tools (empty_listing id)
    l ← gather take_prompts s.list_prompts l
    l ← gather take_resources s.list_resources l
    gather take_templates s.list_resource_templates l)

  -- `Surface`. Each source answers within the timeout, or with the error that the timeout is.
  unfoldable pub surface : Gateway F → Result AssembleError Surface
  surface g = assemble (map (λ (id, s). list id s) (sort_by (λ (id, s). id) g.sources))

  unfoldable pub relay_error : Bytes → F → Option ℤ → GatewayError F
  relay_error id e (some code) = answered e
  relay_error id e none = backend_unavailable id e

  -- `unavailable`.
  unfoldable pub unavailable : Bytes → F → GatewayError F
  unfolding relay_error
  unavailable id e = relay_error id e (protocol_code e)

  -- What a backend's answer becomes.
  unfoldable pub relay : {R : Type 0} → Bytes → Result F R → Result (GatewayError F) R
  relay id (ok r) = ok r
  relay id (err e) = err (unavailable id e)

  -- What `CallTool` and `GetPrompt` share: the request goes to the routed backend, under the name
  -- that it knows.
  unfoldable pub ask_source :
      {R : Type 0}
      → (Source F → Bytes → Result F R)
      → Bytes
      → Bytes
      → Option (Source F)
      → Result (GatewayError F) R
  ask_source ask id name none = err panicked
  ask_source ask id name (some s) = relay id (ask s name)

  unfoldable pub ask_routed :
      {R : Type 0}
      → (Source F → Bytes → Result F R)
      → Gateway F
      → Option (Bytes × Bytes)
      → Result (GatewayError F) R
  ask_routed ask g none = err not_found
  ask_routed ask g (some (id, name)) = ask_source ask id name (lookup id g.sources)

  -- `CallTool`.
  unfoldable pub call_tool : Gateway F → Bytes → Bytes → Result (GatewayError F) ToolResult
  call_tool g qualified arguments =
      ask_routed (λ s name. s.call_tool name arguments) g (route g.router qualified)

  -- `GetPrompt`.
  unfoldable pub get_prompt :
      Gateway F → Bytes → Map Bytes Bytes → Result (GatewayError F) PromptResult
  get_prompt g qualified arguments =
      ask_routed (λ s name. s.get_prompt name arguments) g (route g.router qualified)

  unfoldable pub read_from :
      Bytes → Bytes → Option (Source F) → Result (GatewayError F) ResourceContents
  read_from id uri none = err (unknown_backend id)
  read_from id uri (some s) = relay id (s.read_resource uri)

  unfoldable pub read_unwrapped :
      Gateway F → Option (Bytes × Bytes) → Result (GatewayError F) ResourceContents
  read_unwrapped g none = err bad_uri
  read_unwrapped g (some (id, uri)) = read_from id uri (lookup id g.sources)

  -- `ReadResource`; `url.Parse` is a parameter.
  unfoldable pub read_resource :
      (Bytes → Option Url) → Gateway F → Bytes → Result (GatewayError F) ResourceContents
  read_resource parse g gateway_uri = read_unwrapped g (unwrap_uri parse gateway_uri)
