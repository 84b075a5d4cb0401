-- ===== src/Config/Env.antt =====
-- internal/config/secret.go `Env.Keys`, and `maps.Copy` on environments.
use mcp_reverse_proxy.Prelude.{
  ◌≡◌, refl, Bool, false, Option, none, some, List, [], ◌∷◌, arith, nat_eq, list_beq_iff, list_eq,
  Bytes, contains, Distinct,
}
use mcp_reverse_proxy.Prelude.Maps.{keys, lookup, insert, lookup-insert, insert-Distinct}
use mcp_reverse_proxy.Prelude.Sorting.{
  bytes_order, sort_bytes, SortedBy, sort_by-Sorted, contains-sort_by,
}
use mcp_reverse_proxy.Config.Types.{Env}

-- `Env.Keys`: the variable names in order.
unfoldable pub env_keys : Env → List Bytes
env_keys e = sort_bytes (keys e)

-- The loop of `validateServers` over the keys, which stops at an empty one.
unfoldable pub has_empty_key : Env → Bool
unfolding env_keys
has_empty_key e = contains (env_keys e) []

-- `maps.Copy(dst, src)`.
unfoldable pub copy_into : Env → Env → Env
copy_into dst [] = dst
copy_into dst ((k, v) ∷ src) = copy_into (insert k v dst) src

-- The first source that has the variable.
abbrev pub or_else {ℓ} : {A : Type ℓ} → Option A → Option A → Option A
or_else (some a) b = some a
or_else none b = b

absent_lookup : (k : Bytes) (src : Env) → contains (keys src) k ≡ false → lookup k src ≡ none
unfolding lookup
absent_lookup k [] h = refl
absent_lookup k ((j, v) ∷ src) h = ground (arith, absent_lookup k src)

-- After a copy a variable has the value of the source, or else the one it had.
pub lookup-copy_into :
    (k : Bytes) (dst src : Env)
    → Distinct (keys src)
    → lookup k (copy_into dst src) ≡ or_else (lookup k src) (lookup k dst)
unfolding copy_into lookup
lookup-copy_into k dst [] _ = refl
lookup-copy_into k dst ((j, v) ∷ src) (fresh, d) = ground (
  arith,
  lookup-copy_into k (insert j v dst) src d,
  lookup-insert j k v dst,
  list_beq_iff j k,
  absent_lookup j src fresh,
)

pub copy_into-Distinct : (dst src : Env) → Distinct (keys dst) → Distinct (keys (copy_into dst src))
unfolding copy_into
copy_into-Distinct dst [] d = d
copy_into-Distinct dst ((k, v) ∷ src) d =
    copy_into-Distinct (insert k v dst) src (insert-Distinct k v dst d)

pub contains-env_keys : (e : Env) (k : Bytes) → contains (env_keys e) k ≡ contains (keys e) k
unfolding env_keys sort_bytes
contains-env_keys e k = contains-sort_by (λ b. b) (keys e) k

pub env_keys-Sorted : (e : Env) → SortedBy (λ b. b) (env_keys e)
unfolding env_keys sort_bytes
env_keys-Sorted e = sort_by-Sorted (λ b. b) (keys e)

pub has_empty_key_lem : (e : Env) → has_empty_key e ≡ contains (keys e) []
unfolding has_empty_key
has_empty_key_lem e = contains-env_keys e []
