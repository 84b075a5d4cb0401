-- ===== src/Policy.antt =====
-- internal/policy/policy.go: what a subject may express through the x-mcp-config header. A nil
-- error is `none`; every `PolicyError` is an `ErrPolicyViolation`.
pub mod Decide
pub mod Advertised
pub mod Bounds
use mcp_reverse_proxy.Prelude.{
  ℕ, Bool, true, false, not, ◌&&◌, Option, none, some, List, [], ◌∷◌, ◌++◌, ltb, leb, if◌then◌else◌,
  Result, ok, err, ◌==◌, nat_eq, list_eq, Bytes, is_empty, contains, codes, non_empty,
}
use mcp_reverse_proxy.Prelude.Maps.{Map, lookup, insert}
use mcp_reverse_proxy.Prelude.Sorting.{sort_bytes, compact}
use mcp_reverse_proxy.Auth.Claims.{Claims, has_scope}
use mcp_reverse_proxy.Config.Types.{
  Server, ServerPatch, Header, File, Env, PolicyConfig, touches_env, touches_process,
}
use mcp_reverse_proxy.Config.Env.{env_keys}

pub data Mode : Type 0 where
  off env_only override_known define_new : Mode

-- The position in `modes`.
abbrev pub rank : Mode → ℕ
rank off = 0
rank env_only = 1
rank override_known = 2
rank define_new = 3

abbrev pub modes : List Mode
modes = off ∷ env_only ∷ override_known ∷ define_new ∷ []

abbrev pub scope_env : Bytes
scope_env = codes "mcp:config:env"

abbrev pub scope_override : Bytes
scope_override = codes "mcp:config:override"

abbrev pub scope_define : Bytes
scope_define = codes "mcp:config:define"

-- The map `scopeFor`, which has no entry for the closed mode.
unfoldable pub scope_for : Mode → Option Bytes
scope_for off = none
scope_for env_only = some scope_env
scope_for override_known = some scope_override
scope_for define_new = some scope_define

pub data PolicyError : Type 0 where
  header_disabled : PolicyError
  insufficient_privileges : Mode → Mode → PolicyError
  missing_scope : List Bytes → PolicyError
  command_not_allowed : Bytes → Bytes → PolicyError
  env_key_denied : Bytes → Bytes → PolicyError

-- Why a deployment's policy is refused at startup.
pub data NewError : Type 0 where
  unknown_mode : Bytes → NewError
  no_allowlist : NewError

pub record Policy : Type 0 where
  pub mode : Mode
  pub allowlist : List Bytes
  pub denylist : List Bytes

-- The conversion `Mode(c.Mode)` with the test that it is one of `modes`.
unfoldable pub parse_mode : Bytes → Option Mode
parse_mode b =
    if b == codes "off"
    then some off
    else if b == codes "env-only"
    then some env_only
    else if b == codes "override-known"
    then some override_known
    else if b == codes "define-new"
    then some define_new
    else none

build : Mode → PolicyConfig → Result NewError Policy
build define_new c = elim c.command_allowlist [
  | [] ↦ err no_allowlist
  | a ∷ rest ↦
      ok (record { mode = define_new; allowlist = c.command_allowlist; denylist = c.env_denylist })
]
build m c = ok (record { mode = m; allowlist = c.command_allowlist; denylist = c.env_denylist })

unfoldable pub new_policy : PolicyConfig → Result NewError Policy
unfolding parse_mode build
new_policy c =
    if is_empty c.mode
    then build off c
    else elim (parse_mode c.mode) [ none ↦ err (unknown_mode c.mode) | some m ↦ build m c ]

scopes_upto : Mode → List Mode → List Bytes
scopes_upto ceiling [] = []
scopes_upto ceiling (m ∷ ms) =
    let rest = scopes_upto ceiling ms in
    if leb (rank m) (rank ceiling)
    then elim (scope_for m) [ none ↦ rest | some scope ↦ scope ∷ rest ]
    else rest

-- `Policy.Scopes`.
unfoldable pub scopes : Policy → List Bytes
unfolding scopes_upto scope_for
scopes p = scopes_upto p.mode modes

-- The map `known` of `CheckHeader`.
unfoldable pub known_servers : List Server → Map Bytes Bool
known_servers [] = []
known_servers (s ∷ ss) = insert s.id true (known_servers ss)

is_known : Map Bytes Bool → Bytes → Bool
is_known known id = elim (lookup id known) [ none ↦ false | some b ↦ b ]

-- What one patch exercises.
patch_demands : Map Bytes Bool → ServerPatch → List Mode
patch_demands known p =
    if is_known known p.id
    then (if touches_process p then override_known ∷ [] else [])
      ++ (if touches_env p then env_only ∷ [] else [])
    else define_new ∷ []

unfoldable pub demands : Map Bytes Bool → List ServerPatch → List Mode
unfolding patch_demands is_known
demands known [] = []
demands known (p ∷ ps) = patch_demands known p ++ demands known ps

highest_of : Mode → List Mode → Mode
highest_of highest [] = highest
highest_of highest (m ∷ ms) = highest_of (if ltb (rank highest) (rank m) then m else highest) ms

missing_scopes : Claims → List Mode → List Bytes
missing_scopes claims [] = []
missing_scopes claims (m ∷ ms) =
    let rest = missing_scopes claims ms in
    elim (scope_for m) [
      | none ↦ rest
      | some scope ↦ if has_scope claims scope then rest else scope ∷ rest
    ]

scope_verdict : List Bytes → Option PolicyError
scope_verdict [] = none
scope_verdict (s ∷ ss) = some (missing_scope (compact (sort_bytes (s ∷ ss))))

-- `decide` behind its first test.
decide_open : Mode → Claims → List Mode → Option PolicyError
unfolding highest_of missing_scopes scope_verdict
decide_open ceiling claims wanted =
    if ltb (rank ceiling) (rank (highest_of env_only wanted))
    then some (insufficient_privileges (highest_of env_only wanted) ceiling)
    else scope_verdict (missing_scopes claims wanted)

decide : Policy → Claims → Map Bytes Bool → List ServerPatch → Option PolicyError
unfolding decide_open demands
decide p claims known ps = elim p.mode [
  | off ↦ some header_disabled
  | m ↦ decide_open m claims (demands known ps)
]

-- `Policy.CheckHeader`.
unfoldable pub check_header : Policy → Claims → File → Option Header → Option PolicyError
unfolding decide known_servers
check_header p claims base none = none
check_header p claims base (some h) = decide p claims (known_servers base.servers) h.servers

-- The first loop of `checkResolved`.
check_commands : List Bytes → List Server → Option PolicyError
check_commands allowlist [] = none
check_commands allowlist (s ∷ ss) =
    if non_empty allowlist && not (contains allowlist s.command)
    then some (command_not_allowed s.id s.command)
    else check_commands allowlist ss

check_keys : List Bytes → Bytes → List Bytes → Option PolicyError
check_keys denylist id [] = none
check_keys denylist id (k ∷ ks) =
    if contains denylist k then some (env_key_denied id k) else check_keys denylist id ks

unfoldable pub patch_env : ServerPatch → Env
patch_env p = elim p.env [ none ↦ [] | some e ↦ e ]

-- The second loop, over the keys that the header supplied.
check_patches : List Bytes → List ServerPatch → Option PolicyError
check_patches denylist [] = none
check_patches denylist (p ∷ ps) = elim (check_keys denylist p.id (env_keys (patch_env p))) [
  | some e ↦ some e
  | none ↦ check_patches denylist ps
]

header_check : List Bytes → Option Header → Option PolicyError
header_check denylist none = none
header_check denylist (some h) = check_patches denylist h.servers

-- `Policy.CheckResolved`.
unfoldable pub check_resolved : Policy → List Server → Option Header → Option PolicyError
unfolding check_commands header_check check_patches check_keys patch_env
check_resolved p resolved h = elim (check_commands p.allowlist resolved) [
  | some e ↦ some e
  | none ↦ header_check p.denylist h
]
