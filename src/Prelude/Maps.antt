-- ===== src/Prelude/Maps.antt =====
-- Go maps as association lists. The order of the list stands for the iteration order of the map,
-- which Go leaves open.
use mathlib.Core.Path.{◌≡◌, refl}
use mathlib.Core.Bool.{true, false, ◌||◌}
use mathlib.Core.List.{List, [], ◌∷◌}
use mathlib.Core.Logic.{◌⊎◌, inl, inr}
use mathlib.Core.Option.{Option, none, some}
use native.Mathlib.Omega.{arith}
use mcp_reverse_proxy.Prelude.Tests.{if◌then◌else◌}
use mcp_reverse_proxy.Prelude.Equality.{Decides, ◌==◌, ==-cases}
use mcp_reverse_proxy.Prelude.Lists.{contains, Distinct}

abbrev pub Map {ℓ κ} : Type ℓ → Type κ → Type (ℓ ⊔ κ)
Map K V = List (K × V)

module _ {ℓ κ} {K : Type ℓ} {V : Type κ} where
  abbrev pub keys : Map K V → List K
  keys [] = []
  keys ((k, v) ∷ m) = k ∷ keys m

module _ {ℓ κ} {K : Type ℓ} {V : Type κ} ⦃e : Decides K⦄ where
  -- `delete(m, key)`.
  unfoldable pub delete : K → Map K V → Map K V
  delete key [] = []
  delete key ((other, old) ∷ rest) =
      if other == key then delete key rest else (other, old) ∷ delete key rest

  -- `m[key] = value`: a new key goes to the end.
  unfoldable pub insert : K → V → Map K V → Map K V
  insert key value [] = (key, value) ∷ []
  insert key value ((other, old) ∷ rest) =
      if other == key then (key, value) ∷ rest else (other, old) ∷ insert key value rest

  -- `m[key]` with its second result.
  unfoldable pub lookup : K → Map K V → Option V
  lookup key [] = none
  lookup key ((other, old) ∷ rest) = if other == key then some old else lookup key rest

  pub lookup-insert :
      (key other : K) (value : V) (m : Map K V)
      → lookup other (insert key value m) ≡ (if key == other then some value else lookup other m)
  unfolding insert lookup
  lookup-insert key other value [] = refl
  lookup-insert key other value ((here, old) ∷ rest) =
      let later = lookup-insert key other value rest in
      ground (arith, later, e.eqb_iff here key, e.eqb_iff here other, e.eqb_iff key other)

  pub lookup-delete :
      (k j : K) (m : Map K V) → lookup j (delete k m) ≡ (if k == j then none else lookup j m)
  unfolding lookup delete
  lookup-delete k j [] = ground arith
  lookup-delete k j ((i, w) ∷ m) =
      ground (arith, e.eqb_iff k j, e.eqb_iff i k, e.eqb_iff i j, lookup-delete k j m)

  pub contains-keys-insert :
      (k j : K) (v : V) (m : Map K V)
      → contains (keys (insert k v m)) j ≡ ((k == j) || contains (keys m) j)
  unfolding insert
  contains-keys-insert k j v [] = refl
  contains-keys-insert k j v ((i, w) ∷ m) =
      ground (arith, e.eqb_iff k j, e.eqb_iff i k, e.eqb_iff i j, contains-keys-insert k j v m)

  pub contains-keys-delete :
      (k j : K) (m : Map K V)
      → contains (keys (delete k m)) j ≡ (if k == j then false else contains (keys m) j)
  unfolding delete
  contains-keys-delete k j [] = ground arith
  contains-keys-delete k j ((i, w) ∷ m) =
      ground (arith, e.eqb_iff k j, e.eqb_iff i k, e.eqb_iff i j, contains-keys-delete k j m)

  pub insert-Distinct :
      (k : K) (v : V) (m : Map K V) → Distinct (keys m) → Distinct (keys (insert k v m))
  unfolding insert
  insert-Distinct k v [] h = (refl, tt)
  insert-Distinct k v ((i, w) ∷ m) h =
      ground (
        arith,
        e.eqb_iff i k,
        e.eqb_iff k i,
        contains-keys-insert k i v m,
        insert-Distinct k v m h.1,
      )

  pub delete-Distinct : (k : K) (m : Map K V) → Distinct (keys m) → Distinct (keys (delete k m))
  unfolding delete
  delete-Distinct k [] h = tt
  delete-Distinct k ((i, w) ∷ m) h =
      ground (arith, contains-keys-delete k i m, delete-Distinct k m h.1)

  pub lookup-none_iff :
      (k : K) (m : Map K V)
      → (contains (keys m) k ≡ false) × (lookup k m ≡ none)
        ⊎ (contains (keys m) k ≡ true) × ((v : V) × (lookup k m ≡ some v))
  unfolding lookup
  lookup-none_iff k [] = inl (refl, refl)
  lookup-none_iff k ((i, w) ∷ m) = elim (==-cases i k) [
    | inl (same, _) ↦ inr (ground arith, (w, ground arith))
    | inr (other, _) ↦ elim (lookup-none_iff k m) [
      | inl (a, b) ↦ inl (ground arith, ground arith)
      | inr (a, (v, b)) ↦ inr (ground arith, (v, ground arith))
    ]
  ]

module _ {ℓ κ} {K : Type ℓ} {V : Type κ} where
  unfoldable pub values : Map K V → List V
  values [] = []
  values ((k, v) ∷ m) = v ∷ values m
