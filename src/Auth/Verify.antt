-- ===== src/Auth/Verify.antt =====
-- internal/auth/verify.go, and `parseScopes` of auth.go. The JWT library's parser is a parameter.
pub mod Genuine
use mcp_reverse_proxy.Prelude.{
  ℕ, Bool, not, Option, none, some, List, [], ◌∷◌, if◌then◌else◌, Result, ok, err, ◌==◌, nat_eq,
  list_eq, Bytes, is_empty, length, contains, codes,
}
use mcp_reverse_proxy.Prelude.Maps.{Map, lookup}
use mcp_reverse_proxy.Auth.Claims.{Claims, Subject, is_identified}
use mcp_reverse_proxy.Auth.Words.{trim_space, fields}

abbrev pub signing_methods : List Bytes
signing_methods =
    codes "RS256"
    ∷ codes "RS384"
    ∷ codes "RS512"
    ∷ codes "PS256"
    ∷ codes "PS384"
    ∷ codes "PS512"
    ∷ codes "ES256"
    ∷ codes "ES384"
    ∷ codes "ES512"
    ∷ []

-- The reasons for which a request is refused.
pub data AuthError : Type 0 where
  no_token : AuthError
  token_in_query : AuthError
  unknown_issuer : AuthError
  invalid_token : AuthError
  wrong_audience : AuthError
  no_subject : AuthError

-- What the key function sees of a token: `GetIssuer`, `none` for its error, and the header's "kid"
-- and "alg".
pub record TokenHead : Type 0 where
  pub issuer : Option Bytes
  pub kid : Option Bytes
  pub alg : Bytes

-- `tokenClaims`, with times in seconds.
pub record TokenClaims : Type 0 where
  pub issuer : Bytes
  pub subject : Bytes
  pub audience : List Bytes
  pub expires_at : Option ℕ
  pub not_before : Option ℕ
  pub issued_at : Option ℕ
  pub scope : Bytes

-- An error of the parser, as `errors.Is` sees it.
pub record ParseError : Type 0 where
  pub is_unknown_issuer : Bool
  pub is_wrong_audience : Bool

-- `Parser.ParseWithClaims` of a parser with these methods and this audience, which requires an
-- expiry and checks the time of issue.
abbrev pub Parser : Type 0 → Type 0
Parser K =
    List Bytes → Bytes → (TokenHead → Result AuthError K) → Bytes → Result ParseError TokenClaims

pub record Verifier (K : Type 0) : Type 0 where
  pub keys : Bytes → Bytes → Result AuthError K
  pub issuers : List Bytes
  pub audience : Bytes

unfoldable pub find_key : {K : Type 0} → Map Bytes K → Bytes → Option K → Result AuthError K
find_key keys kid (some key) = ok key
find_key keys kid none = elim (lookup [] keys) [
  | none ↦ err invalid_token
  | some key ↦ if length keys == 1 then ok key else err invalid_token
]

unfoldable pub key_of_issuer : {K : Type 0} → Bytes → Option (Map Bytes K) → Result AuthError K
key_of_issuer kid none = err unknown_issuer
key_of_issuer kid (some keys) = find_key keys kid (lookup kid keys)

-- `StaticKeys.Key`.
unfoldable pub static_key :
    {K : Type 0} → Map Bytes (Map Bytes K) → Bytes → Bytes → Result AuthError K
static_key by_issuer issuer kid = key_of_issuer kid (lookup issuer by_issuer)

unfoldable pub or_no_kid : Option Bytes → Bytes
or_no_kid (some kid) = kid
or_no_kid none = []

unfoldable pub key_of_head :
    {K : Type 0} → Verifier K → Option Bytes → Option Bytes → Result AuthError K
key_of_head v none kid = err unknown_issuer
key_of_head v (some issuer) kid =
    if contains v.issuers issuer then v.keys issuer (or_no_kid kid) else err unknown_issuer

-- `keyFor`.
unfoldable pub key_for : {K : Type 0} → Verifier K → TokenHead → Result AuthError K
key_for v head = key_of_head v head.issuer head.kid

-- `classify`.
unfoldable pub classify : ParseError → AuthError
classify e =
    if e.is_unknown_issuer
    then unknown_issuer
    else if e.is_wrong_audience
    then wrong_audience
    else invalid_token

-- `parseScopes`.
unfoldable pub parse_scopes : Bytes → List Bytes
parse_scopes scope = if is_empty scope then [] else fields scope

unfoldable pub subject_of : TokenClaims → Subject
subject_of c = record { issuer = trim_space c.issuer; sub = trim_space c.subject }

unfoldable pub claims_of : TokenClaims → Claims
claims_of c = record { subject = subject_of c; scopes = parse_scopes c.scope }

unfoldable pub accepted :
    {K : Type 0} → Verifier K → Result ParseError TokenClaims → Result AuthError Claims
accepted v (err e) = err (classify e)
accepted v (ok c) =
    if not (contains v.issuers c.issuer)
    then err unknown_issuer
    else if not (is_identified (subject_of c))
    then err no_subject
    else ok (claims_of c)

-- `Verify`.
unfoldable pub verify : {K : Type 0} → Parser K → Verifier K → Bytes → Result AuthError Claims
verify parse v token =
    if is_empty token
    then err no_token
    else accepted v (parse signing_methods v.audience (key_for v) token)
