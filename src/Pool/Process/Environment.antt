-- ===== src/Pool/Process/Environment.antt =====
-- internal/pool/process.go: what a child process finds in its environment.
use mcp_reverse_proxy.Prelude.{
  ℕ, ◌≡◌, refl, ◌∙◌, ap, inl, inr, false, Option, none, some, List, [], ◌∷◌, ◌++◌, map, arith, ok,
  if◌then◌else◌, ◌==◌, ==-refl, ==-cases, nat_eq, list_eq, Bytes, contains, All, Bool-cases,
}
use mcp_reverse_proxy.Prelude.Maps.{lookup, lookup-none_iff}
use mcp_reverse_proxy.Config.Types.{Server, Env}
use mcp_reverse_proxy.Config.Env.{env_keys, contains-env_keys}
use mcp_reverse_proxy.Config.Fingerprint.{or_empty}
use mcp_reverse_proxy.Aggregate.Uri.{cut_at}
use mcp_reverse_proxy.Pool.Stop.{Course, StopPolicy, Stopped}
use mcp_reverse_proxy.Pool.Process.{
  Attempt, Process, environ_entry, environ, spawn, stop_once, stop_process, started_with,
  entry_value, value_of,
}

kept :
    (c : Course) (p : Process) (o : Option Stopped)
    → p.outcome ≡ o
    → (stop_once c p o).0.outcome ≡ some (stop_once c p o).1
unfolding stop_once
kept c p none h = refl
kept c p (some x) h = h

-- Stopping again does nothing, and says what the first time came to.
pub stop_twice :
    (c d : Course) (p : Process) → stop_process d (stop_process c p).0 ≡ stop_process c p
unfolding stop_process stop_once
stop_twice c d p = ap (stop_once d (stop_once c p p.outcome).0) (kept c p p.outcome refl)

cut_at-first : (b : ℕ) (k v : Bytes) → contains k b ≡ false → cut_at b (k ++ (b ∷ v)) ≡ some (k, v)
unfolding cut_at
cut_at-first b [] v h = ground (arith, ==-refl b)
cut_at-first b (c ∷ k) v h = ground (arith, cut_at-first b k v)

entry_value-environ :
    (env : Env) (name k : Bytes)
    → contains k 61 ≡ false
    → entry_value name (cut_at 61 (environ_entry env k))
      ≡ (if k == name then some (or_empty (lookup k env)) else none)
unfolding environ_entry entry_value
entry_value-environ env name k h = rw (cut_at-first 61 k (or_empty (lookup k env)) h) refl

-- The entries give their names the values of the environment, and nothing to other names.
value_of-map :
    (env : Env) (name : Bytes) (ks : List Bytes)
    → All (λ k. contains k 61 ≡ false) ks
    → value_of name (map (environ_entry env) ks)
      ≡ (if contains ks name then some (or_empty (lookup name env)) else none)
unfolding value_of
value_of-map env name [] _ = refl
value_of-map env name (k ∷ ks) (plain, h) = elim (==-cases k name) [
  | inl (here, same) ↦ elim (Bool-cases (contains ks name)) [
    | inl c ↦ rw (value_of-map env name ks h, entry_value-environ env name k plain, here, c) refl
    | inr c ↦
        rw (value_of-map env name ks h, entry_value-environ env name k plain, here, c, same) refl
  ]
  | inr (other, _) ↦ elim (Bool-cases (contains ks name)) [
    | inl c ↦ rw (value_of-map env name ks h, entry_value-environ env name k plain, other, c) refl
    | inr c ↦ rw (value_of-map env name ks h, entry_value-environ env name k plain, other, c) refl
  ]
]

value_of-environ :
    (env : Env) (name : Bytes)
    → All (λ k. contains k 61 ≡ false) (env_keys env)
    → value_of name (environ env) ≡ lookup name env
unfolding environ or_empty
value_of-environ env name h = elim (lookup-none_iff name env) [
  | inl (absent, nothing) ↦
      value_of-map env name (env_keys env) h ∙ rw (contains-env_keys env name, absent, nothing) refl
  | inr (present, (v, e)) ↦
      value_of-map env name (env_keys env) h ∙ rw (contains-env_keys env name, present, e) refl
]

spawn-env :
    (a : Attempt) (server : Server) (policy : StopPolicy) (p : Process)
    → spawn a server policy ≡ ok p
    → p.env ≡ some (environ server.env)
unfolding spawn
spawn-env a server policy p h = ground (arith, h)

-- In a child process each variable has the value that its server's configuration sets, and one that
-- the configuration does not set is not there, whatever the gateway's own environment is, and also if
-- the configuration sets nothing; if no name in the configuration holds the sign "=".
pub spawn_environment :
    (a : Attempt) (server : Server) (policy : StopPolicy) (p : Process) (gateway_env : List Bytes)
    (name : Bytes)
    → spawn a server policy ≡ ok p
    → All (λ k. contains k 61 ≡ false) (env_keys server.env)
    → value_of name (started_with gateway_env p.env) ≡ lookup name server.env
unfolding started_with
spawn_environment a server policy p gateway_env name started plain =
    rw (spawn-env a server policy p started) (value_of-environ server.env name plain)
