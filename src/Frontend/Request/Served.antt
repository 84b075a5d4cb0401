-- ===== src/Frontend/Request/Served.antt =====
-- internal/frontend/policy.go: what a request that gets through is served with.
use mcp_reverse_proxy.Config.Validate.{ServersError}
use mcp_reverse_proxy.Prelude.{
  ◌≡◌, refl, subst, ◌≢◌, ◌↔◌, Bool, Option, none, some, List, arith, Result, ok, err, nat_eq,
  list_eq, Bytes, All, Distinct,
}
use mcp_reverse_proxy.Auth.Claims.{Claims}
use mcp_reverse_proxy.Config.Types.{File, Header, Server}
use mcp_reverse_proxy.Config.Resolve.{resolve, merged}
use mcp_reverse_proxy.Config.Resolve.Laws.{resolve_iff}
use mcp_reverse_proxy.Config.Validate.Laws.{IsUsable, ids}
use mcp_reverse_proxy.Policy.{
  header_disabled, Policy, PolicyError, missing_scope, check_header, check_resolved,
}
use mcp_reverse_proxy.Policy.Bounds.{Permitted, Harmless, header_patches, check_resolved_iff}
use mcp_reverse_proxy.Frontend.Request.{
  HeaderError, env_key_denied, command_not_allowed, insufficient_privileges, serves, refuse,
  header_of, answer, judged, after_merge, after_check, after_header,
}

-- Under which header, checks and merge a set of servers is served.
pub record Grants (p : Policy) (claims : Claims) (base : File) (h : Option Header)
    (servers : List Server) : Type 0 where
  pub allowed : check_header p claims base h ≡ none
  pub merges : servers ≡ merged base h
  pub usable : All IsUsable servers
  pub distinct : Distinct (ids servers)
  pub permitted : All (Permitted p.allowlist) servers
  pub harmless : All (Harmless p.denylist) (header_patches h)

refuse-serves : (e : PolicyError) (servers : List Server) → refuse e ≢ serves servers
unfolding refuse
refuse-serves header_disabled servers = λ h. cc
refuse-serves (insufficient_privileges a b) servers = λ h. cc
refuse-serves (missing_scope m) servers = λ h. cc
refuse-serves (command_not_allowed a b) servers = λ h. cc
refuse-serves (env_key_denied a b) servers = λ h. cc

served-same : (found servers : List Server) → serves found ≡ serves servers → found ≡ servers
served-same found servers h = ground (arith, h)

judged-Grants :
    (p : Policy) (claims : Claims) (base : File) (h : Option Header) (found servers : List Server)
    (o : Option PolicyError)
    → check_header p claims base h ≡ none
    → resolve base h ≡ ok found
    → check_resolved p found h ≡ o
    → judged found o ≡ serves servers
    → Grants p claims base h servers
unfolding judged
judged-Grants p claims base h found servers (some x) allowed merge passed e =
    absurd (refuse-serves x servers e)
judged-Grants p claims base h found servers none allowed merge passed e =
    let same = served-same found servers e in
    let (merges, usable, distinct) = (resolve_iff base h found).0 merge in
    let (permitted, harmless) = (check_resolved_iff p found h).0 passed in
    subst (Grants p claims base h) same (record {
      allowed = allowed;
      merges = merges;
      usable = usable;
      distinct = distinct;
      permitted = permitted;
      harmless = harmless;
    })

merge-Grants :
    (p : Policy) (claims : Claims) (base : File) (h : Option Header) (servers : List Server)
    (r : Result ServersError (List Server))
    → check_header p claims base h ≡ none
    → resolve base h ≡ r
    → after_merge p h r ≡ serves servers
    → Grants p claims base h servers
unfolding after_merge
merge-Grants p claims base h servers (ok found) allowed merge e =
    judged-Grants p claims base h found servers (check_resolved p found h) allowed merge refl e
merge-Grants p claims base h servers (err x) allowed merge e = cc

check-Grants :
    (p : Policy) (claims : Claims) (base : File) (h : Option Header) (servers : List Server)
    (o : Option PolicyError)
    → check_header p claims base h ≡ o
    → after_check p base h o ≡ serves servers
    → Grants p claims base h servers
unfolding after_check
check-Grants p claims base h servers (some x) checked e = absurd (refuse-serves x servers e)
check-Grants p claims base h servers none checked e =
    merge-Grants p claims base h servers (resolve base h) checked refl e

header-Grants :
    (p : Policy) (claims : Claims) (base : File) (servers : List Server)
    (r : Result HeaderError (Option Header))
    → after_header p claims base r ≡ serves servers
    → (h : Option Header) × (r ≡ ok h) × Grants p claims base h servers
unfolding after_header
header-Grants p claims base servers (err x) e = cc
header-Grants p claims base servers (ok h) e =
    (h, refl, check-Grants p claims base h servers (check_header p claims base h) refl e)

Grants-served :
    (p : Policy) (claims : Claims) (base : File) (h : Option Header) (servers : List Server)
    → Grants p claims base h servers
    → after_header p claims base (ok h) ≡ serves servers
unfolding after_header after_check after_merge judged
Grants-served p claims base h servers g =
    rw
      (
        g.allowed,
        (resolve_iff base h servers).1 (g.merges, g.usable, g.distinct),
        (check_resolved_iff p servers h).1 (g.permitted, g.harmless),
      )
      refl

module _ (decode : Bytes → Option (Header × Bool)) where
  -- A request is answered with a set of servers exactly when it has no header or one that parses,
  -- the policy accepts the header, the servers are the base's with the header's patches, they are
  -- usable and have different identifiers, each command is permitted, and no patch sets a variable
  -- of the denylist.
  pub answer_iff :
      (p : Policy) (claims : Claims) (base : File) (raw : Bytes) (servers : List Server)
      → (answer decode p claims base raw ≡ serves servers) ↔ (
          (h : Option Header) × (header_of decode base raw ≡ ok h) × Grants p claims base h servers)
  unfolding answer
  answer_iff p claims base raw servers = (
    λ e. header-Grants p claims base servers (header_of decode base raw) e,
    λ (h, parsed, g). rw parsed (Grants-served p claims base h servers g),
  )
