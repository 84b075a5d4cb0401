-- ===== src/Aggregate/Gateway/Gathered.antt =====
-- internal/aggregate/gateway.go: which backends are left out of a listing.
use mcp_reverse_proxy.Aggregate.Gateway.{
  take_templates, take_resources, take_prompts, empty_listing, take_tools, gathered, absent, list,
  gather,
}
use mcp_reverse_proxy.Prelude.{
  ◌≡◌, refl, ◌∙◌, ◌≢◌, ◌↔◌, ◌⊎◌, inl, inr, true, Option, none, some, Bool-cases, Result, ok, err,
  ◌>>=◌, nat_eq, list_eq, Bytes,
}
use mcp_reverse_proxy.Prelude.Int.{ℤ}
use mcp_reverse_proxy.Backend.Types.{Source}
use mcp_reverse_proxy.Aggregate.Surface.{Listing}

module _ {F : Type 0} (protocol_code : F → Option ℤ) where
  -- A request that leaves the backend in the listing: it succeeded, or the backend has none of
  -- this kind.
  unfoldable pub Tolerated : {R : Type 0} → Result F R → Type 0
  Tolerated (ok r) = Unit
  Tolerated (err e) = absent protocol_code e ≡ true

  gather-none :
      {R : Type 0} (add : R → Listing F → Listing F) (r : Result F R) (l : Listing F)
      → ((r : R) → (add r l).failure ≡ l.failure)
      → l.failure ≡ none
      → Tolerated r
          × ((l' : Listing F) × (gather protocol_code add r l ≡ ok l') × (l'.failure ≡ none))
        ⊎ (¬ Tolerated r)
          × ((l' : Listing F) × (gather protocol_code add r l ≡ err l') × (l'.failure ≢ none))
  unfolding gather Tolerated
  gather-none add (ok r) l keeps h = inl (tt, (add r l, refl, keeps r ∙ h))
  gather-none add (err e) l keeps h = elim (Bool-cases (absent protocol_code e)) [
    | inl gone ↦ inl (gone, (l, rw gone refl, h))
    | inr fails ↦ inr ((λ gone. cc), (record l { failure = some e }, rw fails refl, λ k. cc))
  ]

  -- One request, and then the others.
  gather-then :
      {R : Type 0} (add : R → Listing F → Listing F) (r : Result F R) (l : Listing F)
      (next : Listing F → Result (Listing F) (Listing F)) (P : Type 0)
      → ((r : R) → (add r l).failure ≡ l.failure)
      → l.failure ≡ none
      → ((l' : Listing F) → l'.failure ≡ none → ((gathered (next l')).failure ≡ none) ↔ P)
      → ((gathered (gather protocol_code add r l >>= next)).failure ≡ none) ↔ (Tolerated r × P)
  unfolding gathered
  gather-then add r l next P keeps h others = elim (gather-none add r l keeps h) [
    | inl (well, (l', e, k)) ↦
        rw e (let (to, from) = others l' k in ((λ x. (well, to x)), λ (_, p). from p))
    | inr (ill, (l', e, k)) ↦ rw e ((λ x. absurd (k x)), λ (t, _). absurd (ill t))
  ]

  gather-last :
      {R : Type 0} (add : R → Listing F → Listing F) (r : Result F R) (l : Listing F)
      → ((r : R) → (add r l).failure ≡ l.failure)
      → l.failure ≡ none
      → ((gathered (gather protocol_code add r l)).failure ≡ none) ↔ Tolerated r
  unfolding gathered
  gather-last add r l keeps h = elim (gather-none add r l keeps h) [
    | inl (well, (l', e, k)) ↦ rw e ((λ x. well), λ _. k)
    | inr (ill, (l', e, k)) ↦ rw e ((λ x. absurd (k x)), λ t. absurd (ill t))
  ]

  -- A backend stays in the listing exactly if each of its four requests succeeded or was refused
  -- as a method that the backend does not have.
  pub list-Tolerated :
      (id : Bytes) (s : Source F)
      → ((list protocol_code id s).failure ≡ none) ↔ (
          Tolerated s.list_tools
          × (Tolerated s.list_prompts
              × (Tolerated s.list_resources × Tolerated s.list_resource_templates)))
  unfolding list empty_listing take_tools take_prompts take_resources take_templates
  list-Tolerated id s =
      gather-then take_tools s.list_tools (empty_listing id) _ _ (λ r. refl) refl
        (λ l h.
          gather-then take_prompts s.list_prompts l _ _ (λ r. refl) h
            (λ l h.
              gather-then take_resources s.list_resources l _ _ (λ r. refl) h
                (λ l h. gather-last take_templates s.list_resource_templates l (λ r. refl) h)))
