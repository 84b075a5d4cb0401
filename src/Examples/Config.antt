-- ===== src/Examples/Config.antt =====
-- A base configuration with two servers, and headers over it.
use mcp_reverse_proxy.Prelude.{
  ◌≡◌, refl, none, some, [], ◌∷◌, ok, nat_eq, list_eq, is_empty, Distinct, codes,
}
use mcp_reverse_proxy.Prelude.Int.{pos}
use mcp_reverse_proxy.Prelude.Maps.{lookup}
use mcp_reverse_proxy.Config.Types.{
  Server, ServerPatch, Header, File, Limits, PolicyConfig, Env, era_auto, era_legacy, known_era,
}
use mcp_reverse_proxy.Config.Env.{has_empty_key}
use mcp_reverse_proxy.Config.Validate.{validate_servers, duplicate_id}
use mcp_reverse_proxy.Config.Validate.Laws.{ids}
use mcp_reverse_proxy.Config.Resolve.{apply, resolve, patches}
use mcp_reverse_proxy.Config.Resolve.Laws.{find_server, patched, resolve_lookup}

abbrev pub git : Server
git = record {
  id = codes "git";
  command = codes "mcp-git";
  args = codes "--stdio" ∷ [];
  env = (codes "TOKEN", codes "t0") ∷ (codes "HOME", codes "/h") ∷ [];
  era = era_auto;
}

abbrev pub files : Server
files = record {
  id = codes "files";
  command = codes "mcp-files";
  args = [];
  env = [];
  era = era_legacy;
}

abbrev pub limits : Limits
limits = record {
  max_processes = pos 2;
  max_processes_per_subject = pos 1;
  idle_ttl = pos 100;
  probe_timeout = pos 2;
  max_header_bytes = pos 8192;
}

abbrev pub closed_policy : PolicyConfig
closed_policy = record { mode = []; command_allowlist = []; env_denylist = [] }

abbrev pub base : File
base = record { servers = git ∷ files ∷ []; limits = limits; policy = closed_policy }

abbrev new_env : Env
new_env = (codes "TOKEN", codes "mine") ∷ []

-- A header that hands `git` another credential.
abbrev pub recredit : ServerPatch
recredit = record { id = codes "git"; command = none; args = none; env = some new_env; era = none }

abbrev pub header : Header
header = record { servers = recredit ∷ [] }

abbrev git_recredited : Server
git_recredited = record git {
  env = (codes "TOKEN", codes "mine") ∷ (codes "HOME", codes "/h") ∷ [];
}

resolved_test : resolve base (some header) ≡ ok (git_recredited ∷ files ∷ [])
unfolding resolve validate_servers has_empty_key is_empty known_era apply lookup
    mcp_reverse_proxy.Prelude.Maps.insert mcp_reverse_proxy.Prelude.Sorting.sort_bytes
    mcp_reverse_proxy.Config.Env.copy_into
resolved_test = refl

duplicate_test : validate_servers (git ∷ git ∷ []) ≡ some (duplicate_id 1 (codes "git") 0)
unfolding validate_servers is_empty known_era lookup has_empty_key
    mcp_reverse_proxy.Prelude.Sorting.sort_bytes mcp_reverse_proxy.Prelude.Maps.insert
duplicate_test = refl

base-Distinct : Distinct (ids base.servers)
base-Distinct = (refl, (refl, tt))

resolve_lookup_example :
    find_server (codes "git") (git_recredited ∷ files ∷ [])
    ≡ patched (codes "git") (find_server (codes "git") base.servers) (patches (some header))
resolve_lookup_example = resolve_lookup base (some header) (codes "git") base-Distinct resolved_test
