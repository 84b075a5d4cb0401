-- ===== src/Policy/Advertised.antt =====
-- internal/policy/policy.go: what is asked of a token that carries all that a deployment advertises.
use mcp_reverse_proxy.Prelude.{
  ◌≡◌, ◌≢◌, true, Option, none, some, List, [], ◌∷◌, arith, nat_eq, list_eq, Bytes, All,
}
use mcp_reverse_proxy.Auth.Claims.{Claims}
use mcp_reverse_proxy.Config.Types.{Server, ServerPatch, Header}
use mcp_reverse_proxy.Config.Env.{env_keys}
use mcp_reverse_proxy.Policy.Decide.{missing_scope-within}
use mcp_reverse_proxy.Policy.Bounds.{advertised_scopes_suffice}
use mcp_reverse_proxy.Policy.{
  missing_scope, check_header, File, has_scope, scopes, Policy, check_commands, check_keys,
  patch_env, check_patches, header_check, check_resolved,
}

-- To carry what is advertised is to be asked for no scope.
pub advertised_never_missing :
    (p : Policy) (claims : Claims) (base : File) (h : Header) (ss : List Bytes)
    → All (λ s. has_scope claims s ≡ true) (scopes p)
    → check_header p claims base (some h) ≢ some (missing_scope ss)
advertised_never_missing p claims base h ss held e =
    let accepted =
      (advertised_scopes_suffice p claims base h held).1
        (missing_scope-within p claims base h ss e) in
    absurd (cc accepted)

commands_not_missing :
    (allowlist : List Bytes) (ss : List Server) (missing : List Bytes)
    → check_commands allowlist ss ≢ some (missing_scope missing)
unfolding check_commands
commands_not_missing allowlist [] missing e = absurd (cc)
commands_not_missing allowlist (s ∷ ss) missing e =
    ground (arith, commands_not_missing allowlist ss missing)

keys_not_missing :
    (denylist : List Bytes) (id : Bytes) (ks missing : List Bytes)
    → check_keys denylist id ks ≢ some (missing_scope missing)
unfolding check_keys
keys_not_missing denylist id [] missing e = absurd (cc)
keys_not_missing denylist id (k ∷ ks) missing e =
    ground (arith, keys_not_missing denylist id ks missing)

patches_not_missing :
    (denylist : List Bytes) (ps : List ServerPatch) (missing : List Bytes)
    → check_patches denylist ps ≢ some (missing_scope missing)
unfolding check_patches
patches_not_missing denylist [] missing e = absurd (cc)
patches_not_missing denylist (p ∷ ps) missing e = ground (
  arith,
  keys_not_missing denylist p.id (env_keys (patch_env p)) missing,
  patches_not_missing denylist ps missing,
)

-- The checks of a resolved set ask for no scope.
pub check_resolved_never_missing :
    (p : Policy) (resolved : List Server) (h : Option Header) (missing : List Bytes)
    → check_resolved p resolved h ≢ some (missing_scope missing)
unfolding check_resolved header_check
check_resolved_never_missing p resolved none missing e =
    ground (arith, commands_not_missing p.allowlist resolved missing)
check_resolved_never_missing p resolved (some h) missing e = ground (
  arith,
  commands_not_missing p.allowlist resolved missing,
  patches_not_missing p.denylist h.servers missing,
)
