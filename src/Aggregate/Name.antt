-- ===== src/Aggregate/Name.antt =====
-- internal/aggregate/name.go: the names a client sees, and whose they are.
pub mod Route
use mcp_reverse_proxy.Prelude.{
  ◌≡◌, ◌⊎◌, Bool, true, ◌&&◌, ◌||◌, Option, none, some, List, [], ◌∷◌, ◌++◌, arith, ltb,
  if◌then◌else◌, ◌==◌, nat_eq, list_eq, Bytes, length, contains, codes,
}
use mcp_reverse_proxy.Prelude.Sorting.{
  Order, sort_by, bytes_le, bytes_le_total, bytes_le_trans, bytes_le_antisymm,
}

abbrev pub separator : Bytes
separator = codes "__"

-- `Qualify`.
unfoldable pub qualify : Bytes → Bytes → Bytes
qualify backend_id name = backend_id ++ separator ++ name

unfoldable pub longer_first : Bytes → Bytes → Bool
longer_first a b = ltb (length b) (length a) || (length b == length a && bytes_le a b)

pub longer_first_total : (a b : Bytes) → (longer_first a b ≡ true) ⊎ (longer_first b a ≡ true)
unfolding longer_first
longer_first_total a b = ground (arith, bytes_le_total a b)

pub longer_first_trans :
    (a b c : Bytes) → longer_first a b ≡ true → longer_first b c ≡ true → longer_first a c ≡ true
unfolding longer_first
longer_first_trans a b c h k = ground (arith, bytes_le_trans a b c)

pub longer_first_antisymm :
    (a b : Bytes) → longer_first a b ≡ true → longer_first b a ≡ true → a ≡ b
unfolding longer_first
longer_first_antisymm a b h k = ground (arith, bytes_le_antisymm a b)

-- The comparison of `NewRouter`.
unfoldable pub longest_first : Order Bytes
longest_first = record {
  le = longer_first;
  le_total = longer_first_total;
  le_trans = longer_first_trans;
  le_antisymm = longer_first_antisymm;
}

-- `NewRouter`: the identifiers in the order in which they are tried.
unfoldable pub new_router : List Bytes → List Bytes
new_router ids = sort_by ⦃o = longest_first⦄ (λ id. id) ids

-- `strings.CutPrefix`.
unfoldable pub cut_prefix : Bytes → Bytes → Option Bytes
cut_prefix [] s = some s
cut_prefix (x ∷ p) [] = none
cut_prefix (x ∷ p) (y ∷ s) = let rest = cut_prefix p s in if x == y then rest else none

unless_empty : Option Bytes → Option Bytes
unless_empty none = none
unless_empty (some []) = none
unless_empty (some (x ∷ xs)) = some (x ∷ xs)

-- The test that `Route` makes of one identifier.
unfoldable pub name_under : Bytes → Bytes → Option Bytes
unfolding unless_empty
name_under id qualified = unless_empty (cut_prefix (id ++ separator) qualified)

or_later : Bytes → Option Bytes → Option (Bytes × Bytes) → Option (Bytes × Bytes)
or_later id (some name) later = some (id, name)
or_later id none later = later

-- `Route`, `none` for `ErrNotFound`.
unfoldable pub route : List Bytes → Bytes → Option (Bytes × Bytes)
unfolding or_later
route [] qualified = none
route (id ∷ ids) qualified = or_later id (name_under id qualified) (route ids qualified)

-- `Has`.
unfoldable pub has : List Bytes → Bytes → Bool
has ids backend_id = contains ids backend_id
