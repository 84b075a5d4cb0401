-- ===== src/Config/Document.antt =====
-- internal/config/config.go: `refuseTimestamps`, on what the YAML decoder gives.
use mcp_reverse_proxy.Prelude.{
  ℕ, zero, suc, ◌+◌, ◌/◌, ◌%◌, ◌≡◌, refl, ◌↔◌, Option, none, some, [], ◌∷◌, ◌++◌, arith, ltb,
  if◌then◌else◌, ◌==◌, nat_eq, list_eq, Bytes, is_empty, codes,
}

-- A decoded document. The members of a mapping stand in the order of their keys, in which the code
-- visits them.
mutual
  pub data Document : Type 0 where
    null : Document
    scalar : Bytes → Document
    timestamp : Bytes → Document
    mapping : Members → Document
    sequence : Items → Document

  pub data Members : Type 0 where
    no_members : Members
    member : Bytes → Document → Members → Members

  pub data Items : Type 0 where
    no_items : Items
    item : Document → Items → Items

-- The decimal digits of a number below 10 ^ fuel.
decimal_digits : ℕ → ℕ → Bytes
decimal_digits zero n = []
decimal_digits (suc fuel) n =
    let rest = decimal_digits fuel (n / 10) in
    if ltb n 10 then (48 + n) ∷ [] else rest ++ ((48 + n % 10) ∷ [])

-- `fmt.Sprintf("%s[%d]", path, i)`.
unfoldable pub index_path : Bytes → ℕ → Bytes
unfolding decimal_digits
index_path path i = path ++ codes "[" ++ decimal_digits (suc i) i ++ codes "]"

trim_dot : Bytes → Bytes
trim_dot [] = []
trim_dot (c ∷ s) = if c == 46 then s else c ∷ s

-- `at`.
unfoldable pub at : Bytes → Bytes
unfolding trim_dot
at path = if is_empty path then codes "the document" else trim_dot path

abbrev pub or_next {ℓ} : {A : Type ℓ} → Option A → Option A → Option A
or_next (some a) later = some a
or_next none later = later

-- `refuseTimestamps`: the place of the first timestamp, if there is one.
unfoldable mutual
  pub refuse_timestamps : Document → Bytes → Option Bytes
  refuse_timestamps null path = none
  refuse_timestamps (scalar s) path = none
  refuse_timestamps (timestamp s) path = some (at path)
  refuse_timestamps (mapping ms) path = refuse_members ms path
  refuse_timestamps (sequence is) path = refuse_items is path 0

  pub refuse_members : Members → Bytes → Option Bytes
  refuse_members no_members path = none
  refuse_members (member key d ms) path =
      or_next (refuse_timestamps d (path ++ codes "." ++ key)) (refuse_members ms path)

  pub refuse_items : Items → Bytes → ℕ → Option Bytes
  refuse_items no_items path i = none
  refuse_items (item d is) path i =
      or_next (refuse_timestamps d (index_path path i)) (refuse_items is path (suc i))

-- No scalar of the document was read as a date or a time.
unfoldable mutual
  pub Timeless : Document → Type 0
  Timeless null = Unit
  Timeless (scalar s) = Unit
  Timeless (timestamp s) = ⊥
  Timeless (mapping ms) = TimelessMembers ms
  Timeless (sequence is) = TimelessItems is

  pub TimelessMembers : Members → Type 0
  TimelessMembers no_members = Unit
  TimelessMembers (member key d ms) = Timeless d × TimelessMembers ms

  pub TimelessItems : Items → Type 0
  TimelessItems no_items = Unit
  TimelessItems (item d is) = Timeless d × TimelessItems is

or_next-none :
    {A : Type 0} (a b : Option A) (P Q : Type 0)
    → (a ≡ none) ↔ P
    → (b ≡ none) ↔ Q
    → (or_next a b ≡ none) ↔ (P × Q)
or_next-none none b P Q (p, p') (q, q') = ((λ h. (p refl, q h)), λ (_, y). q' y)
or_next-none (some a) b P Q (p, p') (q, q') =
    ((λ h. absurd cc), λ (x, y). absurd (ground (arith, p' x)))

mutual
  unfolding refuse_timestamps Timeless

  pub refuse_timestamps-Timeless :
      (d : Document) (path : Bytes) → (refuse_timestamps d path ≡ none) ↔ Timeless d
  refuse_timestamps-Timeless null path = ((λ _. tt), λ _. refl)
  refuse_timestamps-Timeless (scalar s) path = ((λ _. tt), λ _. refl)
  refuse_timestamps-Timeless (timestamp s) path = ((λ h. absurd cc), λ h. absurd h)
  refuse_timestamps-Timeless (mapping ms) path = refuse_members-Timeless ms path
  refuse_timestamps-Timeless (sequence is) path = refuse_items-Timeless is path 0

  refuse_members-Timeless :
      (ms : Members) (path : Bytes) → (refuse_members ms path ≡ none) ↔ TimelessMembers ms
  refuse_members-Timeless no_members path = ((λ _. tt), λ _. refl)
  refuse_members-Timeless (member key d ms) path =
      or_next-none _ _ _ _ (refuse_timestamps-Timeless d (path ++ codes "." ++ key))
        (refuse_members-Timeless ms path)

  refuse_items-Timeless :
      (is : Items) (path : Bytes) (i : ℕ) → (refuse_items is path i ≡ none) ↔ TimelessItems is
  refuse_items-Timeless no_items path i = ((λ _. tt), λ _. refl)
  refuse_items-Timeless (item d is) path i =
      or_next-none _ _ _ _ (refuse_timestamps-Timeless d (index_path path i))
        (refuse_items-Timeless is path (suc i))
