-- ===== src/Config/Resolve/Merge.antt =====
-- The merge by positions is a merge by names.
use mcp_reverse_proxy.Prelude.{
  ℕ, zero, suc, ◌+◌, ◌≡◌, refl, sym, ◌∙◌, subst, inl, inr, false, Option, none, some, List, [], ◌∷◌,
  ◌++◌, arith, if◌then◌else◌, Bool-cases, Option-cases, ◌==◌, nat_eq, list_beq_iff, list_eq, Bytes,
  length, contains, Distinct,
}
use mcp_reverse_proxy.Prelude.Maps.{Map, lookup, insert, lookup-insert}
use mcp_reverse_proxy.Config.Types.{Server, ServerPatch, Header, File}
use mcp_reverse_proxy.Config.Env.{or_else}
use mcp_reverse_proxy.Config.Validate.Laws.{ids}
use mcp_reverse_proxy.Config.Resolve.{apply, fresh, modify, index_from, merge, merged, patches}

or_else-none {ℓ} : {A : Type ℓ} (o : Option A) → or_else o none ≡ o
or_else-none none = refl
or_else-none (some a) = refl

-- One patch over the servers: the server of its name is changed where it stands, and a new name
-- is declared at the end.
unfoldable pub overlay : List Server → ServerPatch → List Server
unfolding apply fresh
overlay [] p = apply (fresh p.id) p ∷ []
overlay (s ∷ ss) p = if s.id == p.id then apply s p ∷ ss else s ∷ overlay ss p

unfoldable pub layered : List Server → List ServerPatch → List Server
layered ss [] = ss
layered ss (p ∷ ps) = layered (overlay ss p) ps

position_from : ℕ → Bytes → List Server → Option ℕ
position_from n id [] = none
position_from n id (s ∷ ss) = if s.id == id then some n else position_from (suc n) id ss

-- What `position_from` finds is where `modify` changes what `overlay` changes.
abbrev Found : ℕ → List Server → ServerPatch → Option ℕ → Type 0
Found n ss p none = overlay ss p ≡ ss ++ apply (fresh p.id) p ∷ []
Found n ss p (some at) = (k : ℕ) × (at ≡ n + k) × (overlay ss p ≡ modify k p ss)

Found-cons :
    (n : ℕ) (s : Server) (ss : List Server) (p : ServerPatch) (o : Option ℕ)
    → Found (suc n) ss p o
    → (s.id == p.id) ≡ false
    → Found n (s ∷ ss) p o
unfolding overlay modify
Found-cons n s ss p none f other = ground arith
Found-cons n s ss p (some at) (k, e, g) other = (suc k, omega arith, ground arith)

position_from-Found :
    (n : ℕ) (ss : List Server) (p : ServerPatch) → Found n ss p (position_from n p.id ss)
unfolding position_from overlay modify
position_from-Found n [] p = refl
position_from-Found n (s ∷ ss) p = elim (Bool-cases (s.id == p.id)) [
  | inl same ↦ rw same (0, omega arith, ground arith)
  | inr other ↦
      rw other (
        Found-cons n s ss p (position_from (suc n) p.id ss) (position_from-Found (suc n) ss p)
          other)
]

position_from-append :
    (n : ℕ) (j : Bytes) (ss : List Server) (s : Server)
    → position_from n j (ss ++ s ∷ [])
      ≡ or_else (position_from n j ss) (if s.id == j then some (n + length ss) else none)
unfolding position_from
position_from-append n j [] s = ground arith
position_from-append n j (x ∷ ss) s = ground (arith, position_from-append (suc n) j ss s)

position_from-modify :
    (n : ℕ) (j : Bytes) (k : ℕ) (p : ServerPatch) (ss : List Server)
    → position_from n j (modify k p ss) ≡ position_from n j ss
unfolding position_from modify apply
position_from-modify n j k p [] = refl
position_from-modify n j zero p (s ∷ ss) = refl
position_from-modify n j (suc k) p (s ∷ ss) = ground (arith, position_from-modify (suc n) j k p ss)

absent_position :
    (n : ℕ) (j : Bytes) (ss : List Server)
    → contains (ids ss) j ≡ false
    → position_from n j ss ≡ none
unfolding position_from
absent_position n j [] h = refl
absent_position n j (s ∷ ss) h = ground (arith, absent_position (suc n) j ss)

-- The index says where each name stands.
abbrev Indexed : List Server → Map Bytes ℕ → Type 0
Indexed ss index = (j : Bytes) → lookup j index ≡ position_from 0 j ss

lookup-index_from :
    (n : ℕ) (j : Bytes) (index : Map Bytes ℕ) (ss : List Server)
    → Distinct (ids ss)
    → lookup j (index_from n index ss) ≡ or_else (position_from n j ss) (lookup j index)
unfolding position_from index_from
lookup-index_from n j index [] _ = refl
lookup-index_from n j index (s ∷ ss) (once, d) = ground (
  arith,
  lookup-index_from (suc n) j (insert s.id n index) ss d,
  lookup-insert s.id j n index,
  absent_position (suc n) s.id ss once,
  list_beq_iff s.id j,
)

Indexed-append :
    (ss : List Server) (s : Server) (index : Map Bytes ℕ)
    → Indexed ss index
    → position_from 0 s.id ss ≡ none
    → Indexed (ss ++ s ∷ []) (insert s.id (length ss) index)
Indexed-append ss s index ix new j = ground (
  arith,
  ix j,
  lookup-insert s.id j (length ss) index,
  position_from-append 0 j ss s,
  list_beq_iff s.id j,
)

overlay_at :
    (ss : List Server) (p : ServerPatch) (at : ℕ)
    → position_from 0 p.id ss ≡ some at
    → overlay ss p ≡ modify at p ss
overlay_at ss p at e =
    let (k, here, same) = subst (Found 0 ss p) e (position_from-Found 0 ss p) in
    let at_k : at ≡ k = omega arith in rw at_k same

overlay_new :
    (ss : List Server) (p : ServerPatch)
    → position_from 0 p.id ss ≡ none
    → overlay ss p ≡ ss ++ apply (fresh p.id) p ∷ []
overlay_new ss p e = subst (Found 0 ss p) e (position_from-Found 0 ss p)

merge-layered :
    (ss : List Server) (index : Map Bytes ℕ) (ps : List ServerPatch)
    → Indexed ss index
    → merge ss index ps ≡ layered ss ps
unfolding merge layered
merge-layered ss index [] ix = refl
merge-layered ss index (p ∷ ps) ix = elim (Option-cases (position_from 0 p.id ss)) [
  | inl e ↦
      rw (ix p.id ∙ e, merge, overlay_new ss p e)
        (merge-layered (ss ++ apply (fresh p.id) p ∷ []) (insert p.id (length ss) index) ps
          (unfold apply fresh in Indexed-append ss (apply (fresh p.id) p) index ix e))
  | inr (at, e) ↦
      rw (ix p.id ∙ e, merge, overlay_at ss p at e)
        (merge-layered (modify at p ss) index ps
          (λ j. ix j ∙ sym (position_from-modify 0 j at p ss)))
]

-- Over a base whose identifiers differ, the merge by positions is the merge by names.
pub merged-layered :
    (base : File) (h : Option Header)
    → Distinct (ids base.servers)
    → merged base h ≡ layered base.servers (patches h)
unfolding merged
merged-layered base h d =
    merge-layered base.servers (index_from 0 [] base.servers) (patches h) (λ j.
      lookup-index_from 0 j [] base.servers d
      ∙ unfold lookup in or_else-none (position_from 0 j base.servers))
