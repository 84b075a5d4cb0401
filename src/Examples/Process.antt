-- ===== src/Examples/Process.antt =====
-- A child's environment and the challenge, at concrete inputs.
use mcp_reverse_proxy.Prelude.{
  ◌≡◌, refl, false, none, some, List, [], ◌∷◌, ◌++◌, contains, ok, nat_eq, list_eq, Bytes, codes,
  is_empty, All,
}
use mcp_reverse_proxy.Prelude.Maps.{lookup}
use mcp_reverse_proxy.Prelude.Sorting.{bytes_order}
use mcp_reverse_proxy.Config.Env.{env_keys}
use mcp_reverse_proxy.Auth.Challenge.{challenge}
use mcp_reverse_proxy.Pool.Stop.{default_stop_policy}
use mcp_reverse_proxy.Pool.Process.{Attempt, Process, spawn, environ, started_with, value_of}
use mcp_reverse_proxy.Pool.Process.Environment.{spawn_environment}
use mcp_reverse_proxy.Examples.Config.{git}

abbrev smooth : Attempt
smooth = record {
  is_cancelled = false;
  stdin_fails = false;
  stdout_fails = false;
  stderr_fails = false;
  start_fails = false;
}

abbrev child : Process
child = record {
  command = codes "mcp-git";
  args = codes "--stdio" ∷ [];
  env = some (codes "HOME=/h" ∷ codes "TOKEN=t0" ∷ []);
  policy = default_stop_policy;
  outcome = none;
}

spawned : spawn smooth git default_stop_policy ≡ ok child
unfolding spawn environ mcp_reverse_proxy.Pool.Process.environ_entry
    mcp_reverse_proxy.Config.Env.env_keys mcp_reverse_proxy.Config.Fingerprint.or_empty lookup
    mcp_reverse_proxy.Prelude.Sorting.sort_bytes
spawned = refl

-- The gateway's own environment.
abbrev gateway_env : List Bytes
gateway_env = codes "SECRET=s" ∷ codes "TOKEN=own" ∷ []

git_plain : All (λ k. contains k 61 ≡ false) (env_keys git.env)
unfolding env_keys mcp_reverse_proxy.Prelude.Sorting.sort_bytes
git_plain = (refl, (refl, tt))

spawn_environment_example :
    value_of (codes "TOKEN") (started_with gateway_env child.env) ≡ lookup (codes "TOKEN") git.env
spawn_environment_example =
    spawn_environment smooth git default_stop_policy child gateway_env (codes "TOKEN") spawned
      git_plain

-- A name that holds the sign sets another variable than the one that it is.
smuggled_test :
    value_of (codes "LD_PRELOAD") (environ ((codes "LD_PRELOAD=/tmp/x.so:", codes "y") ∷ []))
    ≡ some (codes "/tmp/x.so:=y")
unfolding value_of environ mcp_reverse_proxy.Pool.Process.environ_entry env_keys
    mcp_reverse_proxy.Pool.Process.entry_value mcp_reverse_proxy.Config.Fingerprint.or_empty lookup
    mcp_reverse_proxy.Prelude.Sorting.sort_bytes mcp_reverse_proxy.Aggregate.Uri.cut_at
smuggled_test = refl

challenge_test :
    challenge
      (λ s. codes "'" ++ s ++ codes "'")
      (codes "insufficient_scope")
      []
      (codes "a" ∷ codes "b" ∷ [])
    ≡ codes "Bearer error='insufficient_scope', scope='a b'"
unfolding challenge mcp_reverse_proxy.Auth.Challenge.join mcp_reverse_proxy.Auth.Challenge.parameter
    mcp_reverse_proxy.Auth.Challenge.scope_parameter is_empty
challenge_test = refl
