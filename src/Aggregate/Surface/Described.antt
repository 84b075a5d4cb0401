-- ===== src/Aggregate/Surface/Described.antt =====
-- internal/aggregate/surface.go: the surface that `Assemble` makes, described without its loop.
use mcp_reverse_proxy.Prelude.{
  ◌&&◌, ◌||◌, Option, none, some, List, [], ◌∷◌, ◌++◌, map, flat_map, if◌then◌else◌, nat_eq,
  list_eq, Bytes, codes, non_empty,
}
use mcp_reverse_proxy.Prelude.Int.{ℤ, pos, gtb, is_zero}
use mcp_reverse_proxy.Prelude.Sorting.{sort_by, bytes_order}
use mcp_reverse_proxy.Backend.Types.{Tool, Prompt, Resource, ResourceTemplate}
use mcp_reverse_proxy.Aggregate.Uri.{wrap_uri, wrap_uri_template}
use mcp_reverse_proxy.Aggregate.Surface.{Listing, Surface}

-- A backend's part of the surface; one that failed has none.
unfoldable pub shown : {E A : Type 0} → Option E → List A → List A
shown none xs = xs
shown (some e) xs = []

unfoldable pub named : {E : Type 0} → Option E → Bytes → List Bytes
named none id = []
named (some e) id = id ∷ []

-- A backend's name, as the clients see it.
unfoldable pub under : Bytes → Bytes → Bytes
under id name = id ++ codes "__" ++ name

unfoldable pub tools_of : {E : Type 0} → Listing E → List Tool
tools_of l = shown l.failure (
    map {A = Tool} {B = Tool} (λ t. record t { name = under l.backend t.name })
      (sort_by (λ t. t.name) l.tools))

unfoldable pub prompts_of : {E : Type 0} → Listing E → List Prompt
prompts_of l = shown l.failure (
    map {A = Prompt} {B = Prompt} (λ p. record p { name = under l.backend p.name })
      (sort_by (λ p. p.name) l.prompts))

unfoldable pub templates_of : {E : Type 0} → Listing E → List ResourceTemplate
templates_of l = shown l.failure (
    map {A = ResourceTemplate} {B = ResourceTemplate}
      (λ t. record t {
        name = under l.backend t.name;
        uri_template = wrap_uri_template l.backend t.uri_template;
      })
      (sort_by (λ t. t.name) l.templates))

unfoldable pub resources_of : {E : Type 0} → Listing E → List Resource
resources_of l = shown l.failure (
    map {A = Resource} {B = Resource}
      (λ r. record r { uri = wrap_uri l.backend r.uri; name = under l.backend r.name })
      (sort_by (λ r. r.uri) l.resources))

unfoldable pub missing : {E : Type 0} → Listing E → List Bytes
missing l = named l.failure l.backend

-- The shortest of the positive lifetimes that the backends offer, or 0.
unfoldable pub offered : {E : Type 0} → Option E → ℤ → ℤ → ℤ
offered (some e) offer so_far = so_far
offered none offer so_far =
    if gtb offer (pos 0) && (is_zero so_far || gtb so_far offer) then offer else so_far

unfoldable pub shortest : {E : Type 0} → List (Listing E) → ℤ → ℤ
shortest [] so_far = so_far
shortest (l ∷ ls) so_far = shortest ls (offered l.failure l.ttl_ms so_far)

-- The surface of these listings, in this order: five seconds of life if it lacks a backend.
unfoldable pub presented : {E : Type 0} → List (Listing E) → Surface
presented ls = record {
  tools = flat_map tools_of ls;
  prompts = flat_map prompts_of ls;
  resources = flat_map resources_of ls;
  templates = flat_map templates_of ls;
  ttl_ms = if non_empty (flat_map missing ls) then pos 5000 else shortest ls (pos 0);
  unavailable = flat_map missing ls;
}
