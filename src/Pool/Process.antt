-- ===== src/Pool/Process.antt =====
-- internal/pool/process.go: starting a child process, what it is given, and that it is stopped once.
-- Pipes, the start and the wait are the operating system's: whether each succeeds is an argument.
pub mod Environment
use mcp_reverse_proxy.Prelude.{
  Bool, true, [], ◌==◌, false, Option, none, some, List, ◌∷◌, ◌++◌, map, if◌then◌else◌, Result, ok,
  err, nat_eq, list_eq, Bytes,
}
use mcp_reverse_proxy.Prelude.Maps.{lookup}
use mcp_reverse_proxy.Config.Types.{Server, Env}
use mcp_reverse_proxy.Config.Env.{env_keys, or_else}
use mcp_reverse_proxy.Aggregate.Uri.{cut_at}
use mcp_reverse_proxy.Config.Fingerprint.{or_empty}
use mcp_reverse_proxy.Pool.Stop.{Course, StopPolicy, Stopped, stop, Deed}

-- `k+"="+env[k].Reveal()`.
unfoldable pub environ_entry : Env → Bytes → Bytes
environ_entry env k = k ++ (61 ∷ or_empty (lookup k env))

-- `environ`; the slice that it makes is not nil, also for an empty environment.
unfoldable pub environ : Env → List Bytes
environ env = map (environ_entry env) (env_keys env)

pub data SpawnError : Type 0 where
  cancelled : SpawnError
  no_stdin : SpawnError
  no_stdout : SpawnError
  no_stderr : SpawnError
  not_started : SpawnError

-- What goes wrong, if anything does.
pub record Attempt : Type 0 where
  pub is_cancelled : Bool
  pub stdin_fails : Bool
  pub stdout_fails : Bool
  pub stderr_fails : Bool
  pub start_fails : Bool

-- `Process`: what it was started with, where `env` is `cmd.Env`, and `none` a nil slice, and what `stopOnce` has kept.
pub record Process : Type 0 where
  pub command : Bytes
  pub args : List Bytes
  pub env : Option (List Bytes)
  pub policy : StopPolicy
  pub outcome : Option Stopped

-- `Spawn`.
unfoldable pub spawn : Attempt → Server → StopPolicy → Result SpawnError Process
spawn a server policy =
    if a.is_cancelled
    then err cancelled
    else if a.stdin_fails
    then err no_stdin
    else if a.stdout_fails
    then err no_stdout
    else if a.stderr_fails
    then err no_stderr
    else if a.start_fails
    then err not_started
    else ok (record {
      command = server.command;
      args = server.args;
      env = some (environ server.env);
      policy = policy;
      outcome = none;
    })

-- What `exec.Cmd` starts a child with: a nil `Env` stands for the environment of the caller.
unfoldable pub started_with : List Bytes → Option (List Bytes) → List Bytes
started_with gateway_env none = gateway_env
started_with gateway_env (some entries) = entries

-- The value that one entry gives to a variable, whose name ends before the first sign.
unfoldable pub entry_value : Bytes → Option (Bytes × Bytes) → Option Bytes
entry_value name none = none
entry_value name (some (k, v)) = if k == name then some v else none

-- The value of a variable in such an environment: the last entry of its name counts.
unfoldable pub value_of : Bytes → List Bytes → Option Bytes
value_of name [] = none
value_of name (x ∷ xs) = or_else (value_of name xs) (entry_value name (cut_at 61 x))

-- `signal`: whether it is sent, to a process that has exited or not.
unfoldable pub signals : Bool → Deed → Option Deed
signals true sig = none
signals false sig = some sig

unfoldable pub stop_once : Course → Process → Option Stopped → Process × Stopped
stop_once c p (some kept) = (p, kept)
stop_once c p none = (record p { outcome = some (stop c p.policy) }, stop c p.policy)

-- `Stop`.
unfoldable pub stop_process : Course → Process → Process × Stopped
stop_process c p = stop_once c p p.outcome
