-- ===== src/Backend/Normalize.antt =====
-- internal/backend/normalize.go: what a backend's results and errors become.
use mcp_reverse_proxy.Prelude.{
  ◌≡◌, refl, ◌⊎◌, inl, inr, Bool, true, false, if◌then◌else◌, Bool-cases, ◌==◌, nat_eq, list_eq,
  Bytes, is_empty, codes,
}
use mcp_reverse_proxy.Prelude.Int.{ℤ, pos, negsuc, gtb}

abbrev pub result_type_complete : Bytes
result_type_complete = codes "complete"

abbrev pub cache_scope_private : Bytes
cache_scope_private = codes "private"

abbrev pub default_ttl_ms : ℤ
default_ttl_ms = pos 60000

-- -32002.
abbrev pub code_resource_not_found : ℤ
code_resource_not_found = negsuc 32001

pub record Cache : Type 0 where
  pub ttl_ms : ℤ
  pub cache_scope : Bytes

-- Hints that keep a result to one subject, for a positive time.
pub record IsOwn (c : Cache) : Type 0 where
  pub scope : c.cache_scope ≡ cache_scope_private
  pub ttl : gtb c.ttl_ms (pos 0) ≡ true

-- `normalizeCache`.
unfoldable pub normalize_cache : Cache → Cache
normalize_cache c = record {
  ttl_ms = if gtb c.ttl_ms (pos 0) then c.ttl_ms else default_ttl_ms;
  cache_scope = cache_scope_private;
}

-- `normalizeResultType`.
unfoldable pub normalize_result_type : Bytes → Bytes
normalize_result_type t = if is_empty t then result_type_complete else t

unfoldable pub int_eq : ℤ → ℤ → Bool
int_eq (pos a) (pos b) = a == b
int_eq (pos a) (negsuc b) = false
int_eq (negsuc a) (pos b) = false
int_eq (negsuc a) (negsuc b) = a == b

-- `normalizeErrorCode`; `jsonrpc.CodeInvalidParams` is a parameter.
unfoldable pub normalize_error_code : ℤ → ℤ → ℤ
unfolding int_eq
normalize_error_code code_invalid_params code =
    if int_eq code code_resource_not_found then code_invalid_params else code

-- An error of a call, as `errors.As` and `connectionLost` see it: a JSON-RPC error, a session that
-- is gone, or anything else.
pub data CallError (E : Type 0) : Type 0 where
  wire : ℤ → Bytes → CallError E
  session_gone : E → CallError E
  other_error : E → CallError E

-- What the rest of the gateway sees; `not_connected` is `ErrNotConnected` of backend.go.
pub data BackendError (E : Type 0) : Type 0 where
  not_connected : BackendError E
  protocol : Bytes → ℤ → Bytes → BackendError E
  connection_lost : E → BackendError E
  plain : E → BackendError E

-- `normalizeError`.
unfoldable pub normalize_error : {E : Type 0} → ℤ → Bytes → CallError E → BackendError E
normalize_error invalid server_id (wire code message) =
    protocol server_id (normalize_error_code invalid code) message
normalize_error invalid server_id (session_gone e) = connection_lost e
normalize_error invalid server_id (other_error e) = plain e

-- A normalised result has the scope `private` and a positive lifetime, a positive lifetime is kept, and normalising twice is normalising once.
pub normalize_cache_lem :
    (c : Cache)
    → ((normalize_cache c).cache_scope ≡ cache_scope_private)
      × (gtb (normalize_cache c).ttl_ms (pos 0) ≡ true)
      × (((normalize_cache c).ttl_ms ≡ c.ttl_ms) ⊎ (gtb c.ttl_ms (pos 0) ≡ false))
      × (normalize_cache (normalize_cache c) ≡ normalize_cache c)
unfolding normalize_cache
normalize_cache_lem c = elim (Bool-cases (gtb c.ttl_ms (pos 0))) [
  | inl kept ↦ rw kept (refl, kept, inl refl, rw kept refl)
  | inr zero_ttl ↦ rw zero_ttl (refl, refl, inr refl, refl)
]

pub normalize_cache-IsOwn : (c : Cache) → IsOwn (normalize_cache c)
normalize_cache-IsOwn c = record {
  scope = (normalize_cache_lem c).0;
  ttl = (normalize_cache_lem c).1;
}
