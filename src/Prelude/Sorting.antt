-- ===== src/Prelude/Sorting.antt =====
-- `slices.Sort` on strings, `slices.SortStableFunc` and `slices.Compact`.
use Prim.Native.Nat.{suc}
use mathlib.Core.Path.{◌≡◌, refl, ◌∙◌, subst}
use mathlib.Core.Bool.{Bool, true, false, ◌&&◌, ◌||◌}
use mathlib.Core.List.{List, [], ◌∷◌}
use mathlib.Core.Logic.{◌⊎◌, inl, inr, ◌≢◌}
use native.Mathlib.Omega.{arith}
use mcp_reverse_proxy.Prelude.Tests.{ltb, if◌then◌else◌, Bool-cases}
use mcp_reverse_proxy.Prelude.Equality.{
  Decides, ◌==◌, Bytes, list_eq, nat_eq, ==-cases, ==-refl, list_beq_iff,
}
use mcp_reverse_proxy.Prelude.Lists.{length, contains, Distinct, All}

-- A total order as a test.
pub record Order {ℓ} (A : Type ℓ) : Type ℓ where
  pub le : A → A → Bool
  pub le_total : (a b : A) → (le a b ≡ true) ⊎ (le b a ≡ true)
  pub le_trans : (a b c : A) → le a b ≡ true → le b c ≡ true → le a c ≡ true
  pub le_antisymm : (a b : A) → le a b ≡ true → le b a ≡ true → a ≡ b

-- `strings.Compare(a, b) <= 0`: the bytes from the left, a prefix first.
abbrev pub bytes_le : Bytes → Bytes → Bool
bytes_le [] ys = true
bytes_le (x ∷ xs) [] = false
bytes_le (x ∷ xs) (y ∷ ys) = ltb x y || ((x == y) && bytes_le xs ys)

pub bytes_le_total : (a b : Bytes) → (bytes_le a b ≡ true) ⊎ (bytes_le b a ≡ true)
bytes_le_total [] b = inl refl
bytes_le_total (x ∷ xs) [] = inr refl
bytes_le_total (x ∷ xs) (y ∷ ys) = ground (arith, bytes_le_total xs ys)

pub bytes_le_trans :
    (a b c : Bytes) → bytes_le a b ≡ true → bytes_le b c ≡ true → bytes_le a c ≡ true
bytes_le_trans [] b c h k = refl
bytes_le_trans (x ∷ xs) [] c h k = cc
bytes_le_trans (x ∷ xs) (y ∷ ys) [] h k = cc
bytes_le_trans (x ∷ xs) (y ∷ ys) (z ∷ zs) h k = ground (arith, bytes_le_trans xs ys zs)

pub bytes_le_antisymm : (a b : Bytes) → bytes_le a b ≡ true → bytes_le b a ≡ true → a ≡ b
bytes_le_antisymm [] [] h k = refl
bytes_le_antisymm [] (y ∷ ys) h k = cc
bytes_le_antisymm (x ∷ xs) [] h k = cc
bytes_le_antisymm (x ∷ xs) (y ∷ ys) h k = ground (arith, bytes_le_antisymm xs ys)

instance abbrev pub bytes_order : Order Bytes
bytes_order = record {
  le = bytes_le;
  le_total = bytes_le_total;
  le_trans = bytes_le_trans;
  le_antisymm = bytes_le_antisymm;
}

module _ {ℓ κ} {A : Type ℓ} {K : Type κ} ⦃o : Order K⦄ where
  insert_by : (A → K) → A → List A → List A
  insert_by key a [] = a ∷ []
  insert_by key a (x ∷ xs) = if o.le (key a) (key x) then a ∷ x ∷ xs else x ∷ insert_by key a xs

  -- `slices.SortStableFunc` by a key: an element goes before the equal ones that follow it.
  unfoldable pub sort_by : (A → K) → List A → List A
  unfolding insert_by
  sort_by key [] = []
  sort_by key (x ∷ xs) = insert_by key x (sort_by key xs)

  abbrev pub SortedBy : (A → K) → List A → Type κ
  SortedBy key [] = Unit
  SortedBy key (x ∷ xs) = All (λ y. o.le (key x) (key y) ≡ true) xs × SortedBy key xs

  insert_by-All {μ} :
      (P : A → Type μ) (key : A → K) (a : A) (xs : List A)
      → P a
      → All P xs
      → All P (insert_by key a xs)
  unfolding insert_by
  insert_by-All P key a [] pa _ = (pa, tt)
  insert_by-All P key a (x ∷ xs) pa (px, hx) = ground (arith, insert_by-All P key a xs pa hx)

  pub sort_by-All {μ} :
      (P : A → Type μ) (key : A → K) (xs : List A) → All P xs → All P (sort_by key xs)
  unfolding sort_by
  sort_by-All P key [] _ = tt
  sort_by-All P key (x ∷ xs) (px, hx) =
      insert_by-All P key x (sort_by key xs) px (sort_by-All P key xs hx)

  All-le_trans :
      (key : A → K) (a x : A) (xs : List A)
      → o.le (key a) (key x) ≡ true
      → All (λ y. o.le (key x) (key y) ≡ true) xs
      → All (λ y. o.le (key a) (key y) ≡ true) xs
  All-le_trans key a x [] h _ = tt
  All-le_trans key a x (y ∷ ys) h (hy, hs) =
      (o.le_trans (key a) (key x) (key y) h hy, All-le_trans key a x ys h hs)

  insert_by-Sorted :
      (key : A → K) (a : A) (xs : List A) → SortedBy key xs → SortedBy key (insert_by key a xs)
  unfolding insert_by
  insert_by-Sorted key a [] _ = (tt, tt)
  insert_by-Sorted key a (x ∷ xs) (hx, hs) = elim (Bool-cases (o.le (key a) (key x))) [
    | inl le ↦ rw le ((le, All-le_trans key a x xs le hx), (hx, hs))
    | inr gt ↦ rw gt (
      insert_by-All _ key a xs (ground (arith, o.le_total (key a) (key x))) hx,
      insert_by-Sorted key a xs hs,
    )
  ]

  -- The result of a sort is in order.
  pub sort_by-Sorted : (key : A → K) (xs : List A) → SortedBy key (sort_by key xs)
  unfolding sort_by
  sort_by-Sorted key [] = tt
  sort_by-Sorted key (x ∷ xs) = insert_by-Sorted key x (sort_by key xs) (sort_by-Sorted key xs)

  length-insert_by :
      (key : A → K) (a : A) (xs : List A) → length (insert_by key a xs) ≡ suc (length xs)
  unfolding insert_by
  length-insert_by key a [] = refl
  length-insert_by key a (x ∷ xs) = ground (arith, length-insert_by key a xs)

  pub length-sort_by : (key : A → K) (xs : List A) → length (sort_by key xs) ≡ length xs
  unfolding sort_by
  length-sort_by key [] = refl
  length-sort_by key (x ∷ xs) =
      ground (arith, length-insert_by key x (sort_by key xs), length-sort_by key xs)

module _ {ℓ κ} {A : Type ℓ} {K : Type κ} ⦃o : Order K⦄ ⦃e : Decides A⦄ where
  contains-insert_by :
      (key : A → K) (a : A) (xs : List A) (b : A)
      → contains (insert_by key a xs) b ≡ ((a == b) || contains xs b)
  unfolding insert_by
  contains-insert_by key a [] b = refl
  contains-insert_by key a (x ∷ xs) b = ground (arith, contains-insert_by key a xs b)

  -- A sort neither loses an element nor makes one up.
  pub contains-sort_by :
      (key : A → K) (xs : List A) (b : A) → contains (sort_by key xs) b ≡ contains xs b
  unfolding sort_by
  contains-sort_by key [] b = refl
  contains-sort_by key (x ∷ xs) b =
      ground (arith, contains-insert_by key x (sort_by key xs) b, contains-sort_by key xs b)

-- `slices.Sort` on strings.
unfoldable pub sort_bytes : List Bytes → List Bytes
unfolding sort_by
sort_bytes = sort_by (λ b. b)

module _ {ℓ} {A : Type ℓ} ⦃e : Decides A⦄ where
  -- `slices.Compact`: runs of equal elements become one.
  unfoldable pub compact : List A → List A
  compact [] = []
  compact (x ∷ []) = x ∷ []
  compact (x ∷ y ∷ ys) = let rest = compact (y ∷ ys) in if x == y then rest else x ∷ rest

  pub contains-compact : (xs : List A) (b : A) → contains (compact xs) b ≡ contains xs b
  unfolding compact
  contains-compact [] b = refl
  contains-compact (x ∷ []) b = refl
  contains-compact (x ∷ y ∷ ys) b = ground (arith, e.eqb_iff x y, contains-compact (y ∷ ys) b)

  pub All-compact {κ} : (P : A → Type κ) (xs : List A) → All P xs → All P (compact xs)
  unfolding compact
  All-compact P [] _ = tt
  All-compact P (x ∷ []) h = h
  All-compact P (x ∷ y ∷ ys) (px, h) = ground (arith, All-compact P (y ∷ ys) h)

not_contains_below :
    (x y : Bytes) (zs : List Bytes)
    → bytes_le x y ≡ true
    → (x == y) ≡ false
    → All (λ z. bytes_le y z ≡ true) zs
    → contains zs x ≡ false
not_contains_below x y [] h ne _ = refl
not_contains_below x y (z ∷ zs) h ne (hz, hzs) = elim (==-cases z x) [
  | inl (_, same) ↦
      let back : bytes_le y x ≡ true = subst (λ w. bytes_le y w ≡ true) same hz in
      ground (arith, bytes_le_antisymm x y h back, ==-refl x)
  | inr (other, _) ↦ rw (other, not_contains_below x y zs h ne hzs)
]

-- On a sorted list `slices.Compact` leaves each string once.
pub compact-Distinct : (xs : List Bytes) → SortedBy (λ b. b) xs → Distinct (compact xs)
unfolding compact
compact-Distinct [] _ = tt
compact-Distinct (x ∷ []) _ = (refl, tt)
compact-Distinct (x ∷ y ∷ ys) ((hxy, hx), (hy, hs)) = elim (==-cases x y) [
  | inl (same, _) ↦ rw same (compact-Distinct (y ∷ ys) (hy, hs))
  | inr (other, ne) ↦
      rw other (contains-compact (y ∷ ys) x ∙ later other ne, compact-Distinct (y ∷ ys) (hy, hs))
]
  where
    later : (x == y) ≡ false → x ≢ y → contains (y ∷ ys) x ≡ false
    later other ne =
        ground (arith, not_contains_below x y ys hxy other hy, list_beq_iff x y, list_beq_iff y x)

pub compact-Sorted : (xs : List Bytes) → SortedBy (λ b. b) xs → SortedBy (λ b. b) (compact xs)
unfolding compact
compact-Sorted [] _ = tt
compact-Sorted (x ∷ []) h = h
compact-Sorted (x ∷ y ∷ ys) (hx, hs) =
    let rest = compact-Sorted (y ∷ ys) hs in
    let below = All-compact (λ z. bytes_le x z ≡ true) (y ∷ ys) hx in
    elim (Bool-cases (x == y)) [ inl same ↦ rw same rest | inr other ↦ rw other (below, rest) ]
