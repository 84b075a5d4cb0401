-- ===== src/Auth/Require.antt =====
-- internal/auth/middleware.go: who is admitted to the layers below.
use mcp_reverse_proxy.Prelude.{
  ◌≡◌, refl, ◌↔◌, inl, inr, false, Option, none, some, List, [], ◌∷◌, if◌then◌else◌, Bool-cases,
  Option-cases, Result, ok, err, ◌>>=◌, bind-ok, nat_eq, list_eq, Bytes, is_empty, any, contains,
  codes,
}
use mcp_reverse_proxy.Auth.Claims.{Claims}
use mcp_reverse_proxy.Auth.Words.{trim_space, equal_fold}
use mcp_reverse_proxy.Auth.Verify.{AuthError, no_token, token_in_query, Parser, Verifier, verify}
use mcp_reverse_proxy.Aggregate.Uri.{cut_at}

abbrev pub query_token_params : List Bytes
query_token_params = codes "access_token" ∷ codes "token" ∷ codes "bearer_token" ∷ []

-- What the middleware reads of a request: the names in its query, and its Authorization header,
-- empty if there is none.
pub record Request : Type 0 where
  pub query : List Bytes
  pub authorization : Bytes

unfoldable pub non_blank : Bytes → Option Bytes
non_blank value = if is_empty value then none else some value

unfoldable pub after_scheme : Option (Bytes × Bytes) → Option Bytes
after_scheme none = none
after_scheme (some (scheme, value)) =
    if equal_fold scheme (codes "Bearer") then non_blank (trim_space value) else none

-- `cutBearer`.
unfoldable pub cut_bearer : Bytes → Option Bytes
cut_bearer header = after_scheme (cut_at 32 header)

unfoldable pub credential : Option Bytes → Result AuthError Bytes
credential none = err no_token
credential (some token) = ok token

-- `bearer`.
unfoldable pub bearer : Request → Result AuthError Bytes
bearer r =
    if any (λ param. contains r.query param) query_token_params
    then err token_in_query
    else if is_empty r.authorization
    then err no_token
    else credential (cut_bearer r.authorization)

-- `admitted` passes the request on with these claims; `unauthorized` is status 401.
pub data Admission : Type 0 where
  admitted : Claims → Admission
  unauthorized : AuthError → Admission

unfoldable pub admission : Result AuthError Claims → Admission
admission (ok c) = admitted c
admission (err e) = unauthorized e

-- The handler of `Require`.
unfoldable pub require : {K : Type 0} → Parser K → Verifier K → Request → Admission
require parse v r = admission (bearer r >>= (λ token. verify parse v token))

-- A header of no bytes has no token.
held_header :
    (header token : Bytes)
    → ((if is_empty header then err no_token else credential (cut_bearer header)) ≡ ok token)
      ↔ (cut_bearer header ≡ some token)
unfolding cut_bearer after_scheme credential mcp_reverse_proxy.Aggregate.Uri.cut_at is_empty
held_header [] token = ((λ h. absurd cc), λ h. absurd cc)
held_header (c ∷ header) token = elim (Option-cases (cut_bearer (c ∷ header))) [
  | inl nothing ↦ rw nothing ((λ h. absurd cc), λ h. absurd cc)
  | inr (found, e) ↦ rw e ((λ h. cc), λ h. cc)
]

bearer-ok :
    (r : Request) (token : Bytes)
    → (bearer r ≡ ok token) ↔ (
        (any (λ param. contains r.query param) query_token_params ≡ false)
        × (cut_bearer r.authorization ≡ some token))
unfolding bearer
bearer-ok r token = elim (Bool-cases (any (λ param. contains r.query param) query_token_params)) [
  | inl leaked ↦ rw leaked ((λ h. absurd cc), λ (h, _). absurd cc)
  | inr clean ↦
      let (to, from) = held_header r.authorization token in
      rw clean ((λ h. (refl, to h)), λ (_, h). from h)
]

admission-ok : (r : Result AuthError Claims) (c : Claims) → admission r ≡ admitted c → r ≡ ok c
unfolding admission
admission-ok (ok x) c h = cc
admission-ok (err e) c h = absurd cc

-- A request is admitted exactly if its query holds no token, and its header holds one that is
-- accepted, for the claims that the token makes.
pub require_iff :
    {K : Type 0} (parse : Parser K) (v : Verifier K) (r : Request) (c : Claims)
    → (require parse v r ≡ admitted c) ↔ (
        (any (λ param. contains r.query param) query_token_params ≡ false)
        × ((token : Bytes) × ((cut_bearer r.authorization ≡ some token)
              × (verify parse v token ≡ ok c))))
unfolding require admission
require_iff parse v r c = (
  λ h.
      let (token, e, h') =
        bind-ok (bearer r) (λ token. verify parse v token) c (admission-ok _ c h) in
      let (clean, cut) = (bearer-ok r token).0 e in (clean, (token, (cut, h'))),
  λ (clean, (token, (cut, h))). rw ((bearer-ok r token).1 (clean, cut), h) refl,
)
