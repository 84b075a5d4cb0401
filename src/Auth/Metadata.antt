-- ===== src/Auth/Metadata.antt =====
-- internal/auth/metadata.go, and `NewVerifier` of verify.go: the identifier of the resource. The
-- URL parser and printer are parameters.
use mcp_reverse_proxy.Prelude.{
  ◌||◌, Option, none, some, List, [], ◌∷◌, ◌++◌, if◌then◌else◌, Result, ok, err, ◌>>=◌, nat_eq,
  list_eq, Bytes, is_empty, contains, codes,
}
use mcp_reverse_proxy.Auth.Verify.{AuthError, Verifier}

abbrev pub metadata_path : Bytes
metadata_path = codes "/.well-known/oauth-protected-resource"

abbrev pub scope_access : Bytes
scope_access = codes "mcp:access"

-- `url.URL`, as far as the code reads and writes it; `rest` is what it leaves alone.
pub record ResourceUrl : Type 0 where
  pub url_scheme : Bytes
  pub host : Bytes
  pub path : Bytes
  pub fragment : Bytes
  pub raw_fragment : Bytes
  pub rest : List Bytes

pub data ResourceError : Type 0 where
  unparsable : ResourceError
  not_absolute : ResourceError
  no_key_source : ResourceError
  no_issuers : ResourceError
  offline_access : ResourceError
  not_encoded : ResourceError

-- `Metadata`, with its encoding.
pub record Metadata : Type 0 where
  pub resource : Bytes
  pub authorization_servers : List Bytes
  pub scopes_supported : List Bytes
  pub bearer_methods_supported : List Bytes
  pub body : Bytes

module _ (parse_url : Bytes → Option ResourceUrl) (print_url : ResourceUrl → Bytes) where
  unfoldable pub canonical_url : Option ResourceUrl → Result ResourceError Bytes
  canonical_url none = err unparsable
  canonical_url (some u) =
      if is_empty u.url_scheme || is_empty u.host
      then err not_absolute
      else ok (print_url (record u { fragment = []; raw_fragment = [] }))

  -- `CanonicalResource`.
  unfoldable pub canonical_resource : Bytes → Result ResourceError Bytes
  canonical_resource resource = canonical_url (parse_url resource)

  unfoldable pub below_metadata : Option ResourceUrl → Result ResourceError Bytes
  below_metadata none = err unparsable
  below_metadata (some u) = ok (print_url (record u { path = metadata_path ++ u.path }))

  -- `MetadataURL`.
  unfoldable pub metadata_url : Bytes → Result ResourceError Bytes
  metadata_url resource =
      canonical_resource resource >>= (λ canonical. below_metadata (parse_url canonical))

  unfoldable pub verifier_for :
      {K : Type 0}
      → Option (Bytes → Bytes → Result AuthError K)
      → List Bytes
      → Bytes
      → Result ResourceError (Verifier K)
  verifier_for none issuers canonical = err no_key_source
  verifier_for (some keys) [] canonical = err no_issuers
  verifier_for (some keys) (i ∷ issuers) canonical =
      ok (record { keys = keys; issuers = i ∷ issuers; audience = canonical })

  -- `NewVerifier`; a nil key source is `none`.
  unfoldable pub new_verifier :
      {K : Type 0}
      → Option (Bytes → Bytes → Result AuthError K)
      → List Bytes
      → Bytes
      → Result ResourceError (Verifier K)
  new_verifier keys issuers resource =
      canonical_resource resource >>= (λ canonical. verifier_for keys issuers canonical)

  unfoldable pub or_base_scope : List Bytes → List Bytes
  or_base_scope [] = scope_access ∷ []
  or_base_scope (s ∷ scopes) = s ∷ scopes

  unfoldable pub encoded : Metadata → Option Bytes → Result ResourceError Metadata
  encoded m none = err not_encoded
  encoded m (some body) = ok (record m { body = body })

  unfoldable pub metadata_for :
      (Metadata → Option Bytes) → List Bytes → List Bytes → Bytes → Result ResourceError Metadata
  metadata_for marshal [] scopes canonical = err no_issuers
  metadata_for marshal (i ∷ issuers) scopes canonical =
      let m : Metadata = record {
        resource = canonical;
        authorization_servers = i ∷ issuers;
        scopes_supported = scopes;
        bearer_methods_supported = codes "header" ∷ [];
        body = [];
      } in
      if contains scopes (codes "offline_access") then err offline_access else encoded m (marshal m)

  -- `NewMetadata`; `marshal` is `json.Marshal`.
  unfoldable pub new_metadata :
      (Metadata → Option Bytes) → Bytes → List Bytes → List Bytes → Result ResourceError Metadata
  new_metadata marshal resource issuers scopes =
      canonical_resource resource
      >>= (λ canonical. metadata_for marshal issuers (or_base_scope scopes) canonical)
