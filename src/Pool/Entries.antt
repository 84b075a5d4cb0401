-- ===== src/Pool/Entries.antt =====
-- internal/pool/pool.go: the map of entries, the count for each subject, and the choice of the entry
-- to evict.
use mcp_reverse_proxy.Prelude.{
  ℕ, ◌+◌, ◌-◌, ◌%◌, ◌^◌, Option, none, some, List, [], ◌∷◌, ltb, leb, if◌then◌else◌, ◌==◌, nat_eq,
  list_eq, Bytes,
}
use mcp_reverse_proxy.Prelude.Maps.{Map, lookup, insert, delete}
use mcp_reverse_proxy.Pool.Types.{Key, key_eq, Entry}

-- `n++` on a `uint64`.
unfoldable pub bump : ℕ → ℕ
bump n = (n + 1) % 2 ^ 64

abbrev pub value_or_zero : Option ℕ → ℕ
value_or_zero none = 0
value_or_zero (some n) = n

abbrev pub all_of {ℓ κ} : {K : Type ℓ} {V : Type κ} → Option (Map K V) → Map K V
all_of none = []
all_of (some m) = m

-- `p.perSubject[s]--`, and the entry goes with the last backend.
unfoldable pub lower : Bytes → Map Bytes ℕ → Map Bytes ℕ
lower s m =
    let n = value_or_zero (lookup s m) - 1 in
    let written = insert s n m in if leb n 0 then delete s written else written

-- `p.perSubject[s]++`.
unfoldable pub raise : Bytes → Map Bytes ℕ → Map Bytes ℕ
raise s m = insert s (value_or_zero (lookup s m) + 1) m

module _ {F : Type 0} where
  -- `p.entries[k]`.
  unfoldable pub find_entry : Key → List (Entry F) → Option (Entry F)
  find_entry k [] = none
  find_entry k (e ∷ es) = if e.key == k then some e else find_entry k es

  -- `delete(p.entries, k)`.
  unfoldable pub remove_entry : Key → List (Entry F) → List (Entry F)
  remove_entry k [] = []
  remove_entry k (e ∷ es) = if e.key == k then remove_entry k es else e ∷ remove_entry k es

  -- A write through the pointer to the entry at an address.
  unfoldable pub update_ref : ℕ → (Entry F → Entry F) → List (Entry F) → List (Entry F)
  update_ref r f [] = []
  update_ref r f (e ∷ es) = if e.ref == r then f e ∷ update_ref r f es else e ∷ update_ref r f es

  -- A write through `p.entries[k]`, if there is one.
  unfoldable pub update_key : Key → (Entry F → Entry F) → List (Entry F) → List (Entry F)
  update_key k f [] = []
  update_key k f (e ∷ es) = if e.key == k then f e ∷ es else e ∷ update_key k f es

  -- One round of `leastRecentlyUsedLocked`.
  unfoldable pub older : Option (Entry F) → Entry F → Option (Entry F)
  older oldest e = if ltb 0 e.inflight then oldest else elim oldest [
    | none ↦ some e
    | some o ↦ if ltb e.last_used o.last_used then some e else some o
  ]

  unfoldable pub oldest_from : Option (Entry F) → List (Entry F) → Option (Entry F)
  oldest_from oldest [] = oldest
  oldest_from oldest (e ∷ es) = oldest_from (older oldest e) es

  -- `leastRecentlyUsedLocked`.
  unfoldable pub least_recently_used : List (Entry F) → Option (Entry F)
  unfolding older oldest_from
  least_recently_used es = oldest_from none es
