-- ===== src/Examples/Surface.antt =====
-- internal/aggregate, the surface and the gateway, at concrete inputs.
use mcp_reverse_proxy.Prelude.Sorting.{sort_by, bytes_order}
use mcp_reverse_proxy.Prelude.{
  ℕ, ◌≡◌, refl, ◌↔◌, ◌⊎◌, false, Option, none, some, List, [], ◌∷◌, arith, ok, err, nat_eq, list_eq,
  Bytes, codes,
}
use mcp_reverse_proxy.Prelude.Int.{ℤ, pos, negsuc}
use mcp_reverse_proxy.Prelude.Maps.{Map, keys, lookup}
use mcp_reverse_proxy.Backend.Types.{Source, Tool, Resource}
use mcp_reverse_proxy.Aggregate.Surface.{
  Listing, Surface, assemble, rename_resource, name_collision, tool_entry,
}
use mcp_reverse_proxy.Aggregate.Gateway.{
  Gateway, not_found, new_gateway, call_tool, read_resource, relay, list,
}
use mcp_reverse_proxy.Aggregate.Gateway.Routed.{Becomes, Answers, call_tool_lem}
use mcp_reverse_proxy.Aggregate.Gateway.Resources.{read_resource-rename_resource}
use mcp_reverse_proxy.Aggregate.Gateway.Gathered.{Tolerated, list-Tolerated}
use mcp_reverse_proxy.Examples.Aggregate.{parse_gateway, parse_gateway-ParsesWrapped}
use mcp_reverse_proxy.Aggregate.Name.Route.{Owns}

abbrev pub tool : Bytes → Tool
tool name = record { name = name; title = []; description = []; input_schema = [] }

-- A listing of these tools.
abbrev listing : Bytes → List Tool → Option ℕ → Listing ℕ
listing id ts failure = record {
  backend = id;
  tools = ts;
  prompts = [];
  resources = [];
  templates = [];
  ttl_ms = pos 9000;
  failure = failure;
}

-- Two backends, one of them down.
abbrev half_up : List (Listing ℕ)
half_up =
    listing (codes "git") (tool (codes "pull") ∷ []) none ∷ listing (codes "files") [] (some 7) ∷ []

-- Two backends that make one name.
abbrev clashing : List (Listing ℕ)
clashing =
    listing (codes "a") (tool (codes "b__c") ∷ []) none
    ∷ listing (codes "a__b") (tool (codes "c") ∷ []) none
    ∷ []

clash_test :
    assemble clashing ≡ err (name_collision tool_entry (codes "a") (codes "a__b") (codes "a__b__c"))
unfolding assemble mcp_reverse_proxy.Aggregate.Surface.add_listings
    mcp_reverse_proxy.Prelude.Sorting.sort_by mcp_reverse_proxy.Aggregate.Surface.add_listing
    mcp_reverse_proxy.Aggregate.Surface.add_available mcp_reverse_proxy.Aggregate.Surface.add_tools
    mcp_reverse_proxy.Aggregate.Surface.add_entries mcp_reverse_proxy.Aggregate.Surface.listed_tools
    mcp_reverse_proxy.Aggregate.Surface.claim mcp_reverse_proxy.Aggregate.Surface.rename_tool
    mcp_reverse_proxy.Aggregate.Name.qualify mcp_reverse_proxy.Aggregate.Surface.grant
    mcp_reverse_proxy.Prelude.Maps.lookup mcp_reverse_proxy.Aggregate.Surface.empty_build
    mcp_reverse_proxy.Aggregate.Surface.add_prompts
    mcp_reverse_proxy.Aggregate.Surface.listed_prompts
    mcp_reverse_proxy.Aggregate.Surface.add_templates
    mcp_reverse_proxy.Aggregate.Surface.listed_templates
    mcp_reverse_proxy.Aggregate.Surface.degraded mcp_reverse_proxy.Aggregate.Surface.empty_surface
    mcp_reverse_proxy.Aggregate.Surface.listed_resources mcp_reverse_proxy.Aggregate.Surface.shorter
    mcp_reverse_proxy.Aggregate.Surface.stocked mcp_reverse_proxy.Prelude.Maps.insert
clash_test = refl

-- A backend that calls tools, has no prompts, and fails to list resources. An error is its code.
abbrev pub partial : Source ℤ
partial = record {
  list_tools = err (negsuc 32600);
  call_tool = λ name arguments. ok (record { content = name; is_error = false; result_type = [] });
  list_prompts = err (negsuc 32600);
  get_prompt = λ name arguments. err (negsuc 32601);
  list_resources = err (pos 1);
  list_resource_templates = err (negsuc 32600);
  read_resource = λ uri. err (pos 1);
}

abbrev pub code_of : ℤ → Option ℤ
code_of (pos n) = none
code_of (negsuc n) = some (negsuc n)

abbrev sources : Map Bytes (Source ℤ)
sources = (codes "git", partial) ∷ (codes "files", partial) ∷ []

call_test :
    call_tool code_of (new_gateway sources (pos 0)) (codes "git__pull") []
    ≡ ok (record { content = codes "pull"; is_error = false; result_type = [] })
unfolding call_tool mcp_reverse_proxy.Aggregate.Gateway.ask_routed
    mcp_reverse_proxy.Aggregate.Name.route new_gateway mcp_reverse_proxy.Aggregate.Name.new_router
    mcp_reverse_proxy.Prelude.Sorting.sort_by mcp_reverse_proxy.Aggregate.Name.longest_first
    mcp_reverse_proxy.Aggregate.Name.longer_first mcp_reverse_proxy.Aggregate.Name.name_under
    mcp_reverse_proxy.Aggregate.Name.cut_prefix mcp_reverse_proxy.Aggregate.Gateway.ask_source
    lookup relay
call_test = refl

call_tool_lem_example :
    ((id name : Bytes) → ¬ Owns (keys sources) (codes "git__pull") id name)
      × (call_tool code_of (new_gateway sources (pos 0)) (codes "git__pull") [] ≡ err not_found)
    ⊎ ((id : Bytes) × ((name : Bytes) × ((s : Source ℤ) × (Answers sources
                (codes "git__pull")
                id
                name
                s
              × Becomes code_of id
                  (s.call_tool name [])
                  (call_tool code_of (new_gateway sources (pos 0)) (codes "git__pull") [])))))
call_tool_lem_example = call_tool_lem code_of sources (pos 0) (codes "git__pull") []

list-Tolerated_example : ((list code_of (codes "git") partial).failure ≡ none) ↔ (
    Tolerated code_of partial.list_tools
    × (Tolerated code_of partial.list_prompts
        × (Tolerated code_of partial.list_resources
            × Tolerated code_of partial.list_resource_templates)))
list-Tolerated_example = list-Tolerated code_of (codes "git") partial

-- A resource that the backend offers.
abbrev log_file : Resource
log_file = record {
  uri = codes "file:///a b";
  name = codes "log";
  title = [];
  description = [];
  mime_type = [];
}

read_resource-rename_resource_example :
    read_resource code_of parse_gateway
      (new_gateway sources (pos 0))
      (rename_resource (codes "git") log_file).uri
    ≡ relay code_of (codes "git") (partial.read_resource (codes "file:///a b"))
unfolding new_gateway lookup mcp_reverse_proxy.Aggregate.Uri.unreserved
read_resource-rename_resource_example =
    read_resource-rename_resource code_of parse_gateway (new_gateway sources (pos 0)) (codes "git")
      partial log_file parse_gateway-ParsesWrapped refl refl (refl, (refl, (refl, tt))) refl
      (omega arith)
