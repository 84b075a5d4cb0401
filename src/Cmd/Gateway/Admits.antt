-- ===== src/Cmd/Gateway/Admits.antt =====
-- cmd/mcp-reverse-proxy/gateway.go: who gets through all the layers, and what the metadata promises.
use mcp_reverse_proxy.Prelude.{
  ◌≡◌, subst, arith, ◌≢◌, inl, inr, Bool, true, false, Option, none, some, List, [], ◌∷◌,
  Bool-cases, ok, ◌==◌, nat_eq, list_eq, Bytes, any, contains, All,
}
use mcp_reverse_proxy.Auth.Claims.{Claims, has_scope}
use mcp_reverse_proxy.Auth.Verify.{Parser, verify}
use mcp_reverse_proxy.Auth.Require.{Admission, admitted, require, query_token_params, cut_bearer}
use mcp_reverse_proxy.Auth.Metadata.{Metadata, metadata_path}
use mcp_reverse_proxy.Config.Types.{Header, Server}
use mcp_reverse_proxy.Policy.{scopes}
use mcp_reverse_proxy.Frontend.Request.{
  Answer, bad_header, bad_servers, insufficient_scope, forbidden, serves, answer, header_of,
}
use mcp_reverse_proxy.Frontend.Request.Served.{Grants}
use mcp_reverse_proxy.Frontend.Request.Asked.{answer_unasked}
use mcp_reverse_proxy.Cmd.Gateway.{
  Gateway, HttpRequest, refused, resolved, behind_auth, routed, metadata_answer,
}

-- A request that nothing stops: it is for the endpoint's path, holds a token of these claims in its
-- header and none in its query, and its configuration header grants these servers.
pub record Passes {K : Type 0} (mux : List Bytes → Bytes → Option Bytes) (parse_token : Parser K)
    (decode : Bytes → Option (Header × Bool)) (g : Gateway K) (r : HttpRequest) (claims : Claims)
    (servers : List Server) : Type 0 where
  pub pattern : Bytes
  pub found : mux (metadata_path ∷ g.path ∷ []) r.path ≡ some pattern
  pub protected : (pattern == metadata_path) ≡ false
  pub no_leak : any (λ param. contains r.credentials.query param) query_token_params ≡ false
  pub token : Bytes
  pub held : cut_bearer r.credentials.authorization ≡ some token
  pub genuine : verify parse_token g.verifier token ≡ ok claims
  pub header : Option Header
  pub parsed : header_of decode g.base r.config_header ≡ ok header
  pub granted : Grants g.policy claims g.base header servers

resolved-refused : (a : Answer) (given : Claims) (b : Answer) → resolved given a ≡ refused b → a ≡ b
unfolding resolved
resolved-refused (bad_header e) given b h = cc
resolved-refused (bad_servers e) given b h = cc
resolved-refused (insufficient_scope m) given b h = cc
resolved-refused (forbidden e) given b h = cc
resolved-refused (serves found) given b h = absurd (cc)

metadata_refuses_none :
    (m : Metadata) (method : Bytes) (a : Answer) → metadata_answer m method ≢ refused a
unfolding metadata_answer
metadata_refuses_none m method a h = ground (arith, h)

module _ {K : Type 0} (mux : List Bytes → Bytes → Option Bytes) (parse_token : Parser K)
    (decode : Bytes → Option (Header × Bool)) (g : Gateway K) (r : HttpRequest) where
  behind_auth-refused :
      (x : Admission) (claims : Claims) (a : Answer)
      → x ≡ admitted claims
      → behind_auth mux parse_token decode g r x ≡ refused a
      → answer decode g.policy claims g.base r.config_header ≡ a
  unfolding behind_auth
  behind_auth-refused (Admission.unauthorized e) claims a same h = absurd (cc)
  behind_auth-refused (admitted given) claims a same h =
      let given_same : given ≡ claims = cc same in
      subst (λ c. answer decode g.policy c g.base r.config_header ≡ a) given_same
        (resolved-refused _ given a h)

  pub routed-unasked :
      (claims : Claims) (missing : List Bytes) (o : Option Bytes)
      → All (λ s. has_scope claims s ≡ true) (scopes g.policy)
      → require parse_token g.verifier r.credentials ≡ admitted claims
      → routed mux parse_token decode g r o ≢ refused (insufficient_scope missing)
  unfolding routed
  routed-unasked claims missing none held admits h = absurd (cc)
  routed-unasked claims missing (some pattern) held admits h =
      elim (Bool-cases (pattern == metadata_path)) [
        | inl public ↦ metadata_refuses_none g.metadata r.method _ (rw public at h)
        | inr protected ↦
            answer_unasked g.policy claims g.base held missing decode r.config_header
              (behind_auth-refused _ claims (insufficient_scope missing) admits (rw protected at h))
      ]
