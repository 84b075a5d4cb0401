-- ===== src/Examples/Policy.antt =====
-- The header of Examples/Config under several policies.
use mcp_reverse_proxy.Prelude.{
  ◌≤◌, ◌≡◌, refl, ◌≢◌, ◌↔◌, true, none, some, [], ◌∷◌, ok, nat_eq, list_eq, Bytes, is_empty, any,
  All, contains, Distinct, codes,
}
use mcp_reverse_proxy.Prelude.Sorting.{SortedBy, bytes_order}
use mcp_reverse_proxy.Auth.Claims.{Claims, has_scope}
use mcp_reverse_proxy.Config.Types.{PolicyConfig}
use mcp_reverse_proxy.Policy.{
  Policy, off, env_only, define_new, missing_scope, scope_env, check_header, rank, new_policy,
  check_resolved, scopes,
}
use mcp_reverse_proxy.Policy.Decide.{
  wanted, granted, lacks, check_header_iff, missing_scope_complete,
}
use mcp_reverse_proxy.Policy.Bounds.{define_new_runs_listed}
use mcp_reverse_proxy.Examples.Config.{base, header, git, files}

abbrev pub policy : Policy
policy = record { mode = env_only; allowlist = []; denylist = [] }

abbrev bare : Claims
bare = record { subject = record { issuer = codes "as"; sub = codes "u" }; scopes = [] }

abbrev pub scoped : Claims
scoped = record bare { scopes = scope_env ∷ [] }

accepted_test : check_header policy scoped base (some header) ≡ none
unfolding check_header mcp_reverse_proxy.Prelude.Maps.lookup mcp_reverse_proxy.Prelude.Maps.insert
    mcp_reverse_proxy.Config.Types.touches_process mcp_reverse_proxy.Config.Types.touches_env
    mcp_reverse_proxy.Policy.scope_for has_scope
accepted_test = refl

missing_test : check_header policy bare base (some header) ≡ some (missing_scope (scope_env ∷ []))
unfolding check_header mcp_reverse_proxy.Prelude.Maps.lookup mcp_reverse_proxy.Prelude.Maps.insert
    mcp_reverse_proxy.Config.Types.touches_process mcp_reverse_proxy.Config.Types.touches_env
    mcp_reverse_proxy.Policy.scope_for has_scope mcp_reverse_proxy.Prelude.Sorting.compact
    mcp_reverse_proxy.Prelude.Sorting.sort_bytes
missing_test = refl

check_header_iff_example : (check_header policy scoped base (some header) ≡ none) ↔ (
    (policy.mode ≢ off)
    × All (λ m. rank m ≤ rank policy.mode) (wanted base header)
    × All (λ m. granted scoped m ≡ true) (wanted base header))
check_header_iff_example = check_header_iff policy scoped base header

missing_scope_complete_example :
    Distinct (scope_env ∷ [])
    × SortedBy (λ b. b) (scope_env ∷ [])
    × ((s : Bytes) → contains (scope_env ∷ []) s ≡ any (lacks bare s) (wanted base header))
missing_scope_complete_example =
    missing_scope_complete policy bare base header (scope_env ∷ []) missing_test

abbrev open_config : PolicyConfig
open_config = record {
  mode = codes "define-new";
  command_allowlist = codes "mcp-git" ∷ codes "mcp-files" ∷ [];
  env_denylist = codes "LD_PRELOAD" ∷ [];
}

abbrev open_policy : Policy
open_policy = record {
  mode = define_new;
  allowlist = open_config.command_allowlist;
  denylist = open_config.env_denylist;
}

open_policy_made : new_policy open_config ≡ ok open_policy
unfolding new_policy is_empty
open_policy_made = refl

open_policy_passed : check_resolved open_policy (git ∷ files ∷ []) (some header) ≡ none
unfolding check_resolved mcp_reverse_proxy.Config.Env.env_keys
    mcp_reverse_proxy.Prelude.Sorting.sort_bytes
open_policy_passed = refl

define_new_runs_listed_example :
    All (λ s. contains open_config.command_allowlist s.command ≡ true) (git ∷ files ∷ [])
define_new_runs_listed_example =
    define_new_runs_listed open_config open_policy (git ∷ files ∷ []) (some header) open_policy_made
      refl open_policy_passed
