-- ===== src/Aggregate/Name/Route.antt =====
-- internal/aggregate/name.go: a name is routed to the backend that owns it.
use mcp_reverse_proxy.Prelude.{
  ◌≤◌, ◌≡◌, refl, sym, ap, ap₂, ◌∙◌, subst, ◌≢◌, ◌↔◌, inl, inr, true, Option, none, some, List, [],
  ◌∷◌, ◌++◌, append_assoc, arith, nat_beq_iff, Option-cases, nat_eq, list_beq_iff, list_eq,
  ==-cases, Bytes, length, prefix_unique, contains, All-contains, non_empty,
}
use mcp_reverse_proxy.Prelude.Sorting.{SortedBy, sort_by-Sorted, contains-sort_by}
use mcp_reverse_proxy.Aggregate.Name.{
  qualify, separator, new_router, longest_first, longer_first, cut_prefix, unless_empty, name_under,
  or_later, route,
}

cut_prefix-append : (p s : Bytes) → cut_prefix p (p ++ s) ≡ some s
unfolding cut_prefix
cut_prefix-append [] s = refl
cut_prefix-append (x ∷ p) s = rw ((nat_beq_iff x x).1 refl, cut_prefix-append p s) refl

cut_prefix_sound : (p s r : Bytes) → cut_prefix p s ≡ some r → s ≡ p ++ r
unfolding cut_prefix
cut_prefix_sound [] s r h = cc
cut_prefix_sound (x ∷ p) [] r h = cc
cut_prefix_sound (x ∷ p) (y ∷ s) r h = ground (arith, cut_prefix_sound p s r)

-- What `Route` asks of one identifier.
pub record Owns (ids : List Bytes) (qualified id name : Bytes) : Type 0 where
  pub known : contains ids id ≡ true
  pub spelled : qualified ≡ qualify id name
  pub named : non_empty name ≡ true

name_under_complete :
    (id name : Bytes) → non_empty name ≡ true → name_under id (qualify id name) ≡ some name
unfolding name_under qualify unless_empty
name_under_complete id [] h = cc
name_under_complete id (x ∷ xs) h = rw (cut_prefix-append (id ++ separator) (x ∷ xs)) refl

unless_empty_sound :
    (o : Option Bytes) (name : Bytes)
    → unless_empty o ≡ some name
    → (o ≡ some name) × (non_empty name ≡ true)
unfolding unless_empty
unless_empty_sound none name h = cc
unless_empty_sound (some []) name h = cc
unless_empty_sound (some (x ∷ xs)) name h =
    (h, subst (λ o. elim o [ none ↦ ⊥ | some n ↦ non_empty n ≡ true ]) h refl)

name_under_sound :
    (id qualified name : Bytes)
    → name_under id qualified ≡ some name
    → (qualified ≡ qualify id name) × (non_empty name ≡ true)
unfolding name_under qualify
name_under_sound id qualified name h =
    let (cut, named) = unless_empty_sound _ name h in
    (cut_prefix_sound (id ++ separator) qualified name cut, named)

name_under_owner :
    (ids : List Bytes) (q id name : Bytes) → Owns ids q id name → name_under id q ≡ some name
name_under_owner ids q id name o = rw (o.spelled, name_under_complete id name o.named) refl

owner_later :
    (first : Bytes) (ids : List Bytes) (q id name : Bytes)
    → name_under first q ≡ none
    → Owns (first ∷ ids) q id name
    → Owns ids q id name
owner_later first ids q id name h o = elim (==-cases first id) [
  | inl (_, same) ↦
      let here = name_under_owner (first ∷ ids) q id name o in
      absurd (subst (λ i. name_under i q ≢ some name) same (rw h (λ k. cc)) here)
  | inr (other, _) ↦ record {
    known = ground (arith, o.known);
    spelled = o.spelled;
    named = o.named;
  }
]

-- The first owner in a list is the answer.
route-Owns :
    (ids : List Bytes) (q id name : Bytes) → route ids q ≡ some (id, name) → Owns ids q id name
unfolding route or_later
route-Owns [] q id name h = cc
route-Owns (first ∷ ids) q id name h = elim (Option-cases (name_under first q)) [
  | inl none_here ↦
      let later : route ids q ≡ some (id, name) =
        subst (λ o. or_later first o (route ids q) ≡ some (id, name)) none_here h in
      let o = route-Owns ids q id name later in
      record { known = ground (arith, o.known); spelled = o.spelled; named = o.named }
  | inr (found, e) ↦
      let here : some (first, found) ≡ some (id, name) =
        subst (λ o. or_later first o (route ids q) ≡ some (id, name)) e h in
      let (same_id, same_name) : (first ≡ id) × (found ≡ name) = ground (arith, here) in
      let (spelled, named) = name_under_sound first q found e in
      record {
        known = rw ((list_beq_iff first id).1 same_id) refl;
        spelled = spelled ∙ ap₂ qualify same_id same_name;
        named = subst (λ n. non_empty n ≡ true) same_name named;
      }
]

longest_first-length : (a b : Bytes) → longer_first a b ≡ true → length b ≤ length a
unfolding longer_first
longest_first-length a b h = ground arith

-- In a list in which longer identifiers come first, no owner's identifier is longer.
route-longest :
    (ids : List Bytes) (q id name other rest : Bytes)
    → SortedBy ⦃o = longest_first⦄ (λ i. i) ids
    → route ids q ≡ some (id, name)
    → Owns ids q other rest
    → length other ≤ length id
unfolding route or_later longest_first
route-longest [] q id name other rest _ h _ = cc
route-longest (first ∷ ids) q id name other rest (below, sorted) h o =
    elim (Option-cases (name_under first q)) [
      | inl none_here ↦
          route-longest ids q id name other rest sorted
            (subst (λ o. or_later first o (route ids q) ≡ some (id, name)) none_here h)
            (owner_later first ids q other rest none_here o)
      | inr (found, e) ↦
          let here : some (first, found) ≡ some (id, name) =
            subst (λ o. or_later first o (route ids q) ≡ some (id, name)) e h in
          let same : first ≡ id = ground (arith, here) in
          let within : length other ≤ length first = elim (==-cases first other) [
            | inl (_, it) ↦ omega (arith, ap length it)
            | inr (differs, _) ↦ longest_first-length first other (
                All-contains (λ y. longer_first first y ≡ true) ids other below
                  (ground (arith, o.known)))
          ] in
          subst (λ i. length other ≤ length i) same within
    ]

route_complete : (ids : List Bytes) (q id name : Bytes) → Owns ids q id name → route ids q ≢ none
unfolding route or_later
route_complete [] q id name o = λ h. absurd (ground (arith, o.known))
route_complete (first ∷ ids) q id name o = elim (Option-cases (name_under first q)) [
  | inl none_here ↦
      rw none_here (route_complete ids q id name (owner_later first ids q id name none_here o))
  | inr (found, e) ↦ rw e (λ h. cc)
]

-- Two owners with identifiers of one length are one.
Owns-unique :
    (ids : List Bytes) (q a s b t : Bytes)
    → Owns ids q a s
    → Owns ids q b t
    → length a ≡ length b
    → (a ≡ b) × (s ≡ t)
unfolding qualify
Owns-unique ids q a s b t o u h =
    let spelled : a ++ (separator ++ s) ≡ b ++ (separator ++ t) =
      sym (append_assoc a separator s)
      ∙ (sym o.spelled ∙ (u.spelled ∙ append_assoc b separator t)) in
    let (same, tails) = prefix_unique a b (separator ++ s) (separator ++ t) spelled h in
    (same, (prefix_unique separator separator s t tails refl).1)

Owns-new_router :
    (ids : List Bytes) (q id name : Bytes) → Owns ids q id name → Owns (new_router ids) q id name
unfolding new_router
Owns-new_router ids q id name o = record {
  known = contains-sort_by ⦃o = longest_first⦄ (λ i. i) ids id ∙ o.known;
  spelled = o.spelled;
  named = o.named;
}

-- A name that is not found is owned by no backend.
pub route-none :
    (ids : List Bytes) (q id name : Bytes) → route (new_router ids) q ≡ none → ¬ Owns ids q id name
route-none ids q id name h o =
    route_complete (new_router ids) q id name (Owns-new_router ids q id name o) h

-- `Route` finds the backend that owns a name, and the name that backend knows it by, exactly when
-- an identifier of the configuration, the separator and that name, which is not empty, spell it, and
-- no longer identifier of the configuration does so.
pub route_iff :
    (ids : List Bytes) (q id name : Bytes)
    → (route (new_router ids) q ≡ some (id, name)) ↔ (
        Owns ids q id name
        × ((other rest : Bytes) → Owns ids q other rest → length other ≤ length id))
unfolding new_router
route_iff ids q id name = (
  λ h. (
    listed (route-Owns (new_router ids) q id name h),
    λ other rest o.
        route-longest (new_router ids) q id name other rest
          (sort_by-Sorted ⦃o = longest_first⦄ (λ i. i) ids) h (sorted o),
  ),
  λ (o, longest). elim (Option-cases (route (new_router ids) q)) [
    | inl nothing ↦ absurd (route_complete (new_router ids) q id name (sorted o) nothing)
    | inr ((a, s), e) ↦
        let u = listed (route-Owns (new_router ids) q a s e) in
        let upper = longest a s u in
        let lower =
          route-longest (new_router ids) q a s id name
            (sort_by-Sorted ⦃o = longest_first⦄ (λ i. i) ids) e (sorted o) in
        let (same, tails) = Owns-unique ids q a s id name u o (omega (arith, upper, lower)) in
        e ∙ ap₂ (λ i n. some (i, n)) same tails
  ],
)
  where
    same_ids : (i : Bytes) → contains (new_router ids) i ≡ contains ids i
    same_ids i = contains-sort_by ⦃o = longest_first⦄ (λ i. i) ids i

    listed : {i n : Bytes} → Owns (new_router ids) q i n → Owns ids q i n
    listed {i} o = record {
      known = sym (same_ids i) ∙ o.known;
      spelled = o.spelled;
      named = o.named;
    }

    sorted : {i n : Bytes} → Owns ids q i n → Owns (new_router ids) q i n
    sorted {i} {n} o = Owns-new_router ids q i n o
