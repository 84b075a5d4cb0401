-- ===== src/Auth/Challenge.antt =====
-- internal/auth/middleware.go: the answers that send a client to get a token. `quote` is what the
-- verb %q of the fmt package makes of a string.
use mcp_reverse_proxy.Prelude.{
  List, [], ◌∷◌, ◌++◌, ℕ, if◌then◌else◌, nat_eq, list_eq, Bytes, is_empty, codes,
}

-- Status, and the header WWW-Authenticate.
pub record Refusal : Type 0 where
  pub status : ℕ
  pub www_authenticate : Bytes

-- `strings.Join`.
unfoldable pub join : Bytes → List Bytes → Bytes
join sep [] = []
join sep (s ∷ []) = s
join sep (s ∷ t ∷ rest) = s ++ (sep ++ join sep (t ∷ rest))

module _ (quote : Bytes → Bytes) where
  -- One parameter, if there is something to say.
  unfoldable pub parameter : Bytes → Bytes → List Bytes
  parameter name value = if is_empty value then [] else (name ++ (codes "=" ++ quote value)) ∷ []

  unfoldable pub scope_parameter : List Bytes → List Bytes
  scope_parameter [] = []
  scope_parameter (s ∷ scopes) = (codes "scope=" ++ quote (join (codes " ") (s ∷ scopes))) ∷ []

  -- `challenge`.
  unfoldable pub challenge : Bytes → Bytes → List Bytes → Bytes
  challenge err_code metadata_url scopes =
      codes "Bearer "
      ++ join (codes ", ") (
          parameter (codes "error") err_code
          ++ (parameter (codes "resource_metadata") metadata_url ++ scope_parameter scopes))

  -- `Unauthorized`.
  unfoldable pub unauthorized : Bytes → List Bytes → Refusal
  unauthorized metadata_url scopes = record {
    status = 401;
    www_authenticate = challenge [] metadata_url scopes;
  }

  -- `InsufficientScope`.
  unfoldable pub insufficient_scope : Bytes → List Bytes → Refusal
  insufficient_scope metadata_url scopes = record {
    status = 403;
    www_authenticate = challenge (codes "insufficient_scope") metadata_url scopes;
  }
