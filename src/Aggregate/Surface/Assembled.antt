-- ===== src/Aggregate/Surface/Assembled.antt =====
-- internal/aggregate/surface.go: what `Assemble` comes to, and when it refuses.
use mcp_reverse_proxy.Backend.Types.{ResourceTemplate, Prompt, Tool}
use mcp_reverse_proxy.Prelude.Sorting.{sort_by}
use mcp_reverse_proxy.Aggregate.Surface.{
  empty_build, add_listings, assemble, add_listing, max_name_bytes, add_templates, add_prompts,
  Shelf, add_tools, stocked, template_entry, empty_surface, prompt_entry, tool_entry, degraded,
  without, listed_templates, listed_resources, listed_prompts, shorter, listed_tools, Build,
  Listing, add_available, Surface,
}
use mcp_reverse_proxy.Prelude.{
  ◌≤◌, ◌≡◌, refl, sym, ap, ◌∙◌, subst, ◌↔◌, inl, inr, Option, none, some, List, [], ◌∷◌, ◌++◌, map,
  Bool-cases, ok, bind-ok, nat_eq, list_eq, Bytes, length, non_empty,
}
use mcp_reverse_proxy.Prelude.Sorting.{bytes_order}
use mcp_reverse_proxy.Aggregate.Surface.Claims.{
  Fits, Shelved, add_entries-Shelved, add_entries-ok, All-prefix, Distinct-prefix, map-append_lem,
}

-- A surface with one more listing on it, whatever its names are.
unfoldable pub with_listing : {E : Type 0} → Listing E → Option E → Surface → Surface
with_listing l (some e) s = without l s
with_listing l none s = record s {
  tools = s.tools ++ listed_tools l;
  prompts = s.prompts ++ listed_prompts l;
  templates = s.templates ++ listed_templates l;
  resources = s.resources ++ listed_resources l;
  ttl_ms = shorter l.ttl_ms s.ttl_ms;
}

unfoldable pub with_listings : {E : Type 0} → List (Listing E) → Surface → Surface
with_listings [] s = s
with_listings (l ∷ ls) s = with_listings ls (with_listing l l.failure s)

-- All listings on one surface, as the loop puts them there, in the order of the backends' identifiers.
unfoldable pub all_listed : {E : Type 0} → List (Listing E) → Surface
all_listed ls = degraded (with_listings (sort_by (λ l. l.backend) ls) empty_surface)

-- The owners' names are those on the surface, and fit.
pub record Stocked (b : Build) : Type 0 where
  pub tools : Shelved (λ t. t.name) (b.tool_owners, b.surface.tools)
  pub prompts : Shelved (λ t. t.name) (b.prompt_owners, b.surface.prompts)
  pub templates : Shelved (λ t. t.name) (b.template_owners, b.surface.templates)

-- The names of a surface fit.
pub record Presentable (s : Surface) : Type 0 where
  pub tools : Fits (map (λ t. t.name) s.tools)
  pub prompts : Fits (map (λ t. t.name) s.prompts)
  pub templates : Fits (map (λ t. t.name) s.templates)

-- What the three loops over a backend's entries did.
record Added {E : Type 0} (l : Listing E) (b b' : Build) : Type 0 where
  tools : Shelf Tool
  prompts : Shelf Prompt
  templates : Shelf ResourceTemplate
  tools_added : add_tools l b ≡ ok tools
  prompts_added : add_prompts l b ≡ ok prompts
  templates_added : add_templates l b ≡ ok templates
  result : b' ≡ stocked l b tools prompts templates

add_available-Added :
    {E : Type 0} (l : Listing E) (b b' : Build) → add_available l b ≡ ok b' → Added l b b'
unfolding add_available
add_available-Added l b b' h =
    let (tools, e, h₁) = bind-ok (add_tools l b) _ b' h in
    let (prompts, f, h₂) = bind-ok (add_prompts l b) _ b' h₁ in
    let (templates, g, h₃) = bind-ok (add_templates l b) _ b' h₂ in
    record {
      tools = tools;
      prompts = prompts;
      templates = templates;
      tools_added = e;
      prompts_added = f;
      templates_added = g;
      result = cc;
    }

add_available-Stocked :
    {E : Type 0} (l : Listing E) (b b' : Build)
    → Stocked b
    → add_available l b ≡ ok b'
    → (b'.surface ≡ with_listing l none b.surface) × Stocked b'
unfolding with_listing stocked add_tools add_prompts add_templates
add_available-Stocked l b b' s h =
    let a = add_available-Added l b b' h in
    let (e, e') =
      add_entries-Shelved tool_entry (λ t. t.name) l.backend (listed_tools l)
        (b.tool_owners, b.surface.tools) a.tools s.tools a.tools_added in
    let (f, f') =
      add_entries-Shelved prompt_entry (λ t. t.name) l.backend (listed_prompts l)
        (b.prompt_owners, b.surface.prompts) a.prompts s.prompts a.prompts_added in
    let (g, g') =
      add_entries-Shelved template_entry (λ t. t.name) l.backend (listed_templates l)
        (b.template_owners, b.surface.templates) a.templates s.templates a.templates_added in
    subst (λ c. (c.surface ≡ with_listing l none b.surface) × Stocked c) (sym a.result)
      (simp (e, f, g) refl, record { tools = e'; prompts = f'; templates = g' })

add_available-ok :
    {E : Type 0} (l : Listing E) (b : Build)
    → Stocked b
    → Presentable (with_listing l none b.surface)
    → (b' : Build) × (add_available l b ≡ ok b')
unfolding with_listing stocked add_available add_tools add_prompts add_templates
add_available-ok l b s p =
    let (tools, e) =
      add_entries-ok tool_entry (λ t. t.name) l.backend (listed_tools l)
        (b.tool_owners, b.surface.tools) s.tools p.tools in
    let (prompts, f) =
      add_entries-ok prompt_entry (λ t. t.name) l.backend (listed_prompts l)
        (b.prompt_owners, b.surface.prompts) s.prompts p.prompts in
    let (templates, g) =
      add_entries-ok template_entry (λ t. t.name) l.backend (listed_templates l)
        (b.template_owners, b.surface.templates) s.templates p.templates in
    (stocked l b tools prompts templates, simp (e, f, g) refl)

add_listing-Stocked :
    {E : Type 0} (l : Listing E) (o : Option E) (b b' : Build)
    → Stocked b
    → add_listing l o b ≡ ok b'
    → (b'.surface ≡ with_listing l o b.surface) × Stocked b'
unfolding add_listing with_listing without
add_listing-Stocked l none b b' s h = add_available-Stocked l b b' s h
add_listing-Stocked l (some e) b b' s h =
    let same : record b { surface = without l b.surface } ≡ b' = cc in
    subst (λ c. (c.surface ≡ without l b.surface) × Stocked c) same
      (refl, record { tools = s.tools; prompts = s.prompts; templates = s.templates })

add_listings-Stocked :
    {E : Type 0} (ls : List (Listing E)) (b b' : Build)
    → Stocked b
    → add_listings ls b ≡ ok b'
    → (b'.surface ≡ with_listings ls b.surface) × Stocked b'
unfolding add_listings with_listings
add_listings-Stocked [] b b' s h =
    let same : b ≡ b' = cc in subst (λ c. (c.surface ≡ b.surface) × Stocked c) same (refl, s)
add_listings-Stocked (l ∷ ls) b b' s h =
    let (c, e, h') = bind-ok (add_listing l l.failure b) (λ c. add_listings ls c) b' h in
    let (same, t) = add_listing-Stocked l l.failure b c s e in
    let (same', t') = add_listings-Stocked ls c b' t h' in
    (same' ∙ ap (λ x. with_listings ls x) same, t')

Fits-prefix :
    {A : Type 0} (f : A → Bytes) (xs ys : List A) → Fits (map f (xs ++ ys)) → Fits (map f xs)
Fits-prefix f xs ys h =
    let (short, d) = subst Fits (map-append_lem f xs ys) h in
    (
      All-prefix (λ n. length n ≤ max_name_bytes) (map f xs) (map f ys) short,
      Distinct-prefix (map f xs) (map f ys) d,
    )

-- A surface names what it named before one more listing.
with_listing-Presentable :
    {E : Type 0} (l : Listing E) (o : Option E) (s : Surface)
    → Presentable (with_listing l o s)
    → Presentable s
unfolding with_listing without
with_listing-Presentable l (some e) s p = record {
  tools = p.tools;
  prompts = p.prompts;
  templates = p.templates;
}
with_listing-Presentable l none s p = record {
  tools = Fits-prefix (λ t. t.name) s.tools (listed_tools l) p.tools;
  prompts = Fits-prefix (λ t. t.name) s.prompts (listed_prompts l) p.prompts;
  templates = Fits-prefix (λ t. t.name) s.templates (listed_templates l) p.templates;
}

with_listings-Presentable :
    {E : Type 0} (ls : List (Listing E)) (s : Surface)
    → Presentable (with_listings ls s)
    → Presentable s
unfolding with_listings
with_listings-Presentable [] s p = p
with_listings-Presentable (l ∷ ls) s p =
    with_listing-Presentable l l.failure s
      (with_listings-Presentable ls (with_listing l l.failure s) p)

add_listing-ok :
    {E : Type 0} (l : Listing E) (o : Option E) (b : Build)
    → Stocked b
    → Presentable (with_listing l o b.surface)
    → (b' : Build) × (add_listing l o b ≡ ok b')
unfolding add_listing
add_listing-ok l none b s p = add_available-ok l b s p
add_listing-ok l (some e) b s p = (record b { surface = without l b.surface }, refl)

add_listings-ok :
    {E : Type 0} (ls : List (Listing E)) (b : Build)
    → Stocked b
    → Presentable (with_listings ls b.surface)
    → (b' : Build) × (add_listings ls b ≡ ok b')
unfolding add_listings with_listings
add_listings-ok [] b s p = (b, refl)
add_listings-ok (l ∷ ls) b s p =
    let (c, e) =
      add_listing-ok l l.failure b s
        (with_listings-Presentable ls (with_listing l l.failure b.surface) p) in
    let (same, t) = add_listing-Stocked l l.failure b c s e in
    let (b', h) =
      add_listings-ok ls c t (subst (λ x. Presentable (with_listings ls x)) (sym same) p) in
    (b', rw e h)

empty_build-Stocked : Stocked empty_build
unfolding empty_build empty_surface
empty_build-Stocked = record {
  tools = record { owned = refl; fits = (tt, tt) };
  prompts = record { owned = refl; fits = (tt, tt) };
  templates = record { owned = refl; fits = (tt, tt) };
}

degraded-Presentable : (s : Surface) → Presentable (degraded s) ↔ Presentable s
unfolding degraded
degraded-Presentable s = elim (Bool-cases (non_empty s.unavailable)) [
  | inl lacks ↦ simp lacks (
    λ p. record { tools = p.tools; prompts = p.prompts; templates = p.templates },
    λ p. record { tools = p.tools; prompts = p.prompts; templates = p.templates },
  )
  | inr whole ↦ simp whole ((λ p. p), (λ p. p))
]

assemble-all_listed :
    {E : Type 0} (ls : List (Listing E)) (s : Surface)
    → assemble ls ≡ ok s
    → (s ≡ all_listed ls) × Presentable s
unfolding assemble all_listed empty_build
assemble-all_listed ls s h =
    let (b, e, h') =
      bind-ok (add_listings (sort_by (λ l. l.backend) ls) empty_build)
        (λ b. ok (degraded b.surface)) s h in
    let (same, t) =
      add_listings-Stocked (sort_by (λ l. l.backend) ls) empty_build b empty_build-Stocked e in
    let shown : degraded b.surface ≡ s = cc in
    let p : Presentable b.surface = record {
      tools = t.tools.fits;
      prompts = t.prompts.fits;
      templates = t.templates.fits;
    } in
    (sym shown ∙ ap degraded same, subst Presentable shown ((degraded-Presentable b.surface).1 p))

assemble-ok :
    {E : Type 0} (ls : List (Listing E))
    → Presentable (all_listed ls)
    → assemble ls ≡ ok (all_listed ls)
unfolding assemble all_listed empty_build
assemble-ok ls p =
    let sorted = sort_by (λ l. l.backend) ls in
    let (b, e) =
      add_listings-ok sorted empty_build empty_build-Stocked
        ((degraded-Presentable (with_listings sorted empty_surface)).0 p) in
    let (same, _) = add_listings-Stocked sorted empty_build b empty_build-Stocked e in
    rw e (ap (λ x. ok (degraded x)) same)

pub assemble-all_listed_iff :
    {E : Type 0} (ls : List (Listing E)) (s : Surface)
    → (assemble ls ≡ ok s) ↔ ((s ≡ all_listed ls) × Presentable s)
assemble-all_listed_iff ls s = (
  assemble-all_listed ls s,
  λ (same, p).
      subst (λ x. assemble ls ≡ ok x) (sym same) (assemble-ok ls (subst Presentable same p)),
)
