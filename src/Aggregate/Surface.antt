-- ===== src/Aggregate/Surface.antt =====
-- internal/aggregate/surface.go: the backends' listings folded into one surface.
pub mod Claims
pub mod Assembled
pub mod Described
use mcp_reverse_proxy.Prelude.{
  ℕ, ◌&&◌, ◌||◌, Option, none, some, List, [], ◌∷◌, ◌++◌, map, ltb, if◌then◌else◌, Result, ok, err,
  ◌>>=◌, nat_eq, list_eq, Bytes, length, non_empty,
}
use mcp_reverse_proxy.Prelude.Int.{ℤ, pos, gtb, is_zero}
use mcp_reverse_proxy.Prelude.Maps.{Map, lookup, insert}
use mcp_reverse_proxy.Prelude.Sorting.{bytes_order, sort_by}
use mcp_reverse_proxy.Backend.Types.{Tool, Prompt, Resource, ResourceTemplate}
use mcp_reverse_proxy.Aggregate.Name.{qualify}
use mcp_reverse_proxy.Aggregate.Uri.{wrap_uri, wrap_uri_template}

abbrev pub max_name_bytes : ℕ
max_name_bytes = 128

abbrev pub degraded_ttl_ms : ℤ
degraded_ttl_ms = pos 5000

pub record Listing (E : Type 0) : Type 0 where
  pub backend : Bytes
  pub tools : List Tool
  pub prompts : List Prompt
  pub resources : List Resource
  pub templates : List ResourceTemplate
  pub ttl_ms : ℤ
  pub failure : Option E

pub record Surface : Type 0 where
  pub tools : List Tool
  pub prompts : List Prompt
  pub resources : List Resource
  pub templates : List ResourceTemplate
  pub ttl_ms : ℤ
  pub unavailable : List Bytes

-- The keys of `owners`.
pub data EntryKind : Type 0 where
  tool_entry : EntryKind
  prompt_entry : EntryKind
  template_entry : EntryKind

-- The kind, the backend and the name; in a collision the backend that came first, too.
pub data AssembleError : Type 0 where
  name_too_long : EntryKind → Bytes → Bytes → AssembleError
  name_collision : EntryKind → Bytes → Bytes → Bytes → AssembleError

-- `claim`, on the names of one kind and their owners; the last argument is the name's owner.
unfoldable pub grant :
    EntryKind
    → Bytes
    → Bytes
    → Map Bytes Bytes
    → Option Bytes
    → Result AssembleError (Map Bytes Bytes)
grant kind backend name owners (some first) = err (name_collision kind first backend name)
grant kind backend name owners none = ok (insert name backend owners)

unfoldable pub claim :
    EntryKind → Bytes → Bytes → Map Bytes Bytes → Result AssembleError (Map Bytes Bytes)
claim kind backend name owners =
    if ltb max_name_bytes (length name)
    then err (name_too_long kind backend name)
    else grant kind backend name owners (lookup name owners)

-- The entries of one kind on the surface, with the owners of their names.
abbrev pub Shelf : Type 0 → Type 0
Shelf A = Map Bytes Bytes × List A

-- A loop of `Assemble` over the entries of one kind, each under the name that the gateway gives it.
unfoldable pub add_entries :
    {A : Type 0}
    → EntryKind
    → (A → Bytes)
    → Bytes
    → List A
    → Shelf A
    → Result AssembleError (Shelf A)
add_entries kind name_of backend [] shelf = ok shelf
add_entries kind name_of backend (x ∷ xs) (owners, out) =
    claim kind backend (name_of x) owners
    >>= (λ owners'. add_entries kind name_of backend xs (owners', out ++ (x ∷ [])))

-- An entry as the gateway lists it, for the backend with this identifier.
unfoldable pub rename_tool : Bytes → Tool → Tool
rename_tool id t = record t { name = qualify id t.name }

unfoldable pub rename_prompt : Bytes → Prompt → Prompt
rename_prompt id p = record p { name = qualify id p.name }

unfoldable pub rename_template : Bytes → ResourceTemplate → ResourceTemplate
rename_template id t = record t {
  name = qualify id t.name;
  uri_template = wrap_uri_template id t.uri_template;
}

unfoldable pub rename_resource : Bytes → Resource → Resource
rename_resource id r = record r { uri = wrap_uri id r.uri; name = qualify id r.name }

-- What a backend's entries become: sorted by its own names, and renamed.
unfoldable pub listed_tools : {E : Type 0} → Listing E → List Tool
listed_tools l = map (rename_tool l.backend) (sort_by (λ t. t.name) l.tools)

unfoldable pub listed_prompts : {E : Type 0} → Listing E → List Prompt
listed_prompts l = map (rename_prompt l.backend) (sort_by (λ p. p.name) l.prompts)

unfoldable pub listed_templates : {E : Type 0} → Listing E → List ResourceTemplate
listed_templates l = map (rename_template l.backend) (sort_by (λ t. t.name) l.templates)

unfoldable pub listed_resources : {E : Type 0} → Listing E → List Resource
listed_resources l = map (rename_resource l.backend) (sort_by (λ r. r.uri) l.resources)

-- The shortest lifetime so far, 0 for none.
unfoldable pub shorter : ℤ → ℤ → ℤ
shorter offered ttl =
    if gtb offered (pos 0) && (is_zero ttl || gtb ttl offered) then offered else ttl

-- The variables of `Assemble`.
pub record Build : Type 0 where
  pub surface : Surface
  pub tool_owners : Map Bytes Bytes
  pub prompt_owners : Map Bytes Bytes
  pub template_owners : Map Bytes Bytes

-- The variables after a backend's entries have been added to each shelf.
unfoldable pub stocked :
    {E : Type 0} → Listing E → Build → Shelf Tool → Shelf Prompt → Shelf ResourceTemplate → Build
stocked l b tools prompts templates = record {
  surface = record b.surface {
    tools = tools.1;
    prompts = prompts.1;
    templates = templates.1;
    resources = b.surface.resources ++ listed_resources l;
    ttl_ms = shorter l.ttl_ms b.surface.ttl_ms;
  };
  tool_owners = tools.0;
  prompt_owners = prompts.0;
  template_owners = templates.0;
}

unfoldable pub add_tools : {E : Type 0} → Listing E → Build → Result AssembleError (Shelf Tool)
add_tools l b =
    add_entries tool_entry (λ t. t.name) l.backend (listed_tools l) (b.tool_owners, b.surface.tools)

unfoldable pub add_prompts : {E : Type 0} → Listing E → Build → Result AssembleError (Shelf Prompt)
add_prompts l b =
    add_entries prompt_entry (λ p. p.name) l.backend (listed_prompts l)
      (b.prompt_owners, b.surface.prompts)

unfoldable pub add_templates :
    {E : Type 0} → Listing E → Build → Result AssembleError (Shelf ResourceTemplate)
add_templates l b =
    add_entries template_entry (λ t. t.name) l.backend (listed_templates l)
      (b.template_owners, b.surface.templates)

unfoldable pub add_available : {E : Type 0} → Listing E → Build → Result AssembleError Build
add_available l b = do
  tools ← add_tools l b
  prompts ← add_prompts l b
  templates ← add_templates l b
  ok (stocked l b tools prompts templates)

-- A backend that failed is named.
unfoldable pub without : {E : Type 0} → Listing E → Surface → Surface
without l s = record s { unavailable = s.unavailable ++ (l.backend ∷ []) }

-- One round of the loop over the listings.
unfoldable pub add_listing :
    {E : Type 0} → Listing E → Option E → Build → Result AssembleError Build
add_listing l (some e) b = ok (record b { surface = without l b.surface })
add_listing l none b = add_available l b

unfoldable pub add_listings : {E : Type 0} → List (Listing E) → Build → Result AssembleError Build
add_listings [] b = ok b
add_listings (l ∷ ls) b = add_listing l l.failure b >>= (λ b'. add_listings ls b')

unfoldable pub empty_surface : Surface
empty_surface = record {
  tools = [];
  prompts = [];
  resources = [];
  templates = [];
  ttl_ms = pos 0;
  unavailable = [];
}

unfoldable pub empty_build : Build
empty_build = record {
  surface = empty_surface;
  tool_owners = [];
  prompt_owners = [];
  template_owners = [];
}

-- The lifetime of a listing that lacks a backend.
unfoldable pub degraded : Surface → Surface
degraded s = if non_empty s.unavailable then record s { ttl_ms = degraded_ttl_ms } else s

-- `Assemble`.
unfoldable pub assemble : {E : Type 0} → List (Listing E) → Result AssembleError Surface
assemble listings =
    add_listings (sort_by (λ l. l.backend) listings) empty_build >>= (λ b. ok (degraded b.surface))
