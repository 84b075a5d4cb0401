-- ===== src/Config/Resolve.antt =====
-- internal/config/header.go: `apply` and `Resolve`. The functions return new values where the code
-- copies the base before it changes it (`cloneServer`), so the base is never touched.
pub mod Merge
pub mod Laws
use mcp_reverse_proxy.Prelude.{
  ℕ, zero, suc, Option, none, some, List, [], ◌∷◌, ◌++◌, Result, ok, err, nat_eq, list_eq, Bytes,
  length,
}
use mcp_reverse_proxy.Prelude.Maps.{Map, lookup, insert}
use mcp_reverse_proxy.Config.Types.{Server, ServerPatch, Header, File, Env, era_auto}
use mcp_reverse_proxy.Config.Env.{copy_into}
use mcp_reverse_proxy.Config.Validate.{ServersError, validate_servers}

abbrev pub value_or {ℓ} : {A : Type ℓ} → Option A → A → A
value_or none a = a
value_or (some b) a = b

merge_env : Env → Option Env → Env
merge_env old none = old
merge_env old (some new) = copy_into old new

-- The environment merges variable by variable, everything else is replaced.
unfoldable pub apply : Server → ServerPatch → Server
unfolding merge_env
apply s p = record {
  id = s.id;
  command = value_or p.command s.command;
  args = value_or p.args s.args;
  env = merge_env s.env p.env;
  era = value_or p.era s.era;
}

-- The server that a patch declares when nothing of its name is there.
unfoldable pub fresh : Bytes → Server
fresh id = record { id = id; command = []; args = []; env = []; era = era_auto }

-- `apply(&servers[at], p)`.
modify : ℕ → ServerPatch → List Server → List Server
modify at p [] = []
modify zero p (s ∷ ss) = apply s p ∷ ss
modify (suc at) p (s ∷ ss) = s ∷ modify at p ss

-- The first loop: where each base server stands.
index_from : ℕ → Map Bytes ℕ → List Server → Map Bytes ℕ
index_from n index [] = index
index_from n index (s ∷ ss) = index_from (suc n) (insert s.id n index) ss

-- The second loop: one patch a round.
merge : List Server → Map Bytes ℕ → List ServerPatch → List Server
merge servers index [] = servers
merge servers index (p ∷ ps) = elim (lookup p.id index) [
  | some at ↦ merge (modify at p servers) index ps
  | none ↦ merge (servers ++ apply (fresh p.id) p ∷ []) (insert p.id (length servers) index) ps
]

unfoldable pub patches : Option Header → List ServerPatch
patches none = []
patches (some h) = h.servers

unfoldable pub merged : File → Option Header → List Server
unfolding merge index_from patches modify
merged base h = merge base.servers (index_from 0 [] base.servers) (patches h)

unfoldable pub resolve : File → Option Header → Result ServersError (List Server)
unfolding merged
resolve base h = elim (validate_servers (merged base h)) [
  | some e ↦ err e
  | none ↦ ok (merged base h)
]
