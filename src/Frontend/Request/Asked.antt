-- ===== src/Frontend/Request/Asked.antt =====
-- internal/frontend/policy.go: no scope is asked of a token that carries all that are advertised.
use mcp_reverse_proxy.Prelude.{
  ◌≡◌, refl, ◌∙◌, ap, ◌≢◌, Bool, true, Option, none, some, List, Result, ok, err, nat_eq, list_eq,
  Bytes, All,
}
use mcp_reverse_proxy.Auth.Claims.{Claims, has_scope}
use mcp_reverse_proxy.Config.Types.{File, Header, Server}
use mcp_reverse_proxy.Config.Validate.{ServersError}
use mcp_reverse_proxy.Config.Resolve.{resolve}
use mcp_reverse_proxy.Policy.{
  Policy, PolicyError, header_disabled, insufficient_privileges, missing_scope, command_not_allowed,
  env_key_denied, check_header, check_resolved, scopes,
}
use mcp_reverse_proxy.Policy.Advertised.{advertised_never_missing, check_resolved_never_missing}
use mcp_reverse_proxy.Frontend.Request.{
  HeaderError, insufficient_scope, refuse, header_of, answer, judged, after_merge, after_check,
  after_header,
}

refuse-asked :
    (e : PolicyError) (missing : List Bytes)
    → refuse e ≡ insufficient_scope missing
    → e ≡ missing_scope missing
unfolding refuse
refuse-asked header_disabled missing h = absurd (cc)
refuse-asked (insufficient_privileges a b) missing h = absurd (cc)
refuse-asked (missing_scope m) missing h = cc
refuse-asked (command_not_allowed a b) missing h = absurd (cc)
refuse-asked (env_key_denied a b) missing h = absurd (cc)

module _ (p : Policy) (claims : Claims) (base : File)
    (held : All (λ s. has_scope claims s ≡ true) (scopes p)) (missing : List Bytes) where
  judged_unasked :
      (h : Option Header) (found : List Server) (o : Option PolicyError)
      → check_resolved p found h ≡ o
      → judged found o ≢ insufficient_scope missing
  unfolding judged
  judged_unasked h found none same e = absurd (cc)
  judged_unasked h found (some x) same e =
      check_resolved_never_missing p found h missing (same ∙ ap some (refuse-asked x missing e))

  merge_unasked :
      (h : Option Header) (r : Result ServersError (List Server))
      → after_merge p h r ≢ insufficient_scope missing
  unfolding after_merge
  merge_unasked h (ok found) e = judged_unasked h found (check_resolved p found h) refl e
  merge_unasked h (err x) e = absurd (cc)

  accepted_unasked :
      (h : Option Header) → check_header p claims base h ≢ some (missing_scope missing)
  unfolding check_header
  accepted_unasked none e = absurd (cc)
  accepted_unasked (some h) e = advertised_never_missing p claims base h missing held e

  check_unasked :
      (h : Option Header) (o : Option PolicyError)
      → check_header p claims base h ≡ o
      → after_check p base h o ≢ insufficient_scope missing
  unfolding after_check
  check_unasked h none same e = merge_unasked h (resolve base h) e
  check_unasked h (some x) same e = accepted_unasked h (same ∙ ap some (refuse-asked x missing e))

  header_unasked :
      (r : Result HeaderError (Option Header))
      → after_header p claims base r ≢ insufficient_scope missing
  unfolding after_header
  header_unasked (err x) e = absurd (cc)
  header_unasked (ok h) e = check_unasked h (check_header p claims base h) refl e

  -- Whatever the header is, no scope is asked for.
  pub answer_unasked :
      (decode : Bytes → Option (Header × Bool)) (raw : Bytes)
      → answer decode p claims base raw ≢ insufficient_scope missing
  unfolding answer
  answer_unasked decode raw e = header_unasked (header_of decode base raw) e
