-- ===== src/Config/Resolve/Laws.antt =====
-- What a request's server set is, name by name.
use mcp_reverse_proxy.Prelude.{
  ◌≡◌, refl, ap, ◌∙◌, ◌↔◌, inl, inr, Option, none, some, List, [], ◌∷◌, arith, if◌then◌else◌,
  Option-cases, ok, ◌==◌, nat_eq, list_beq_iff, list_eq, ==-cases, Bytes, All, Distinct,
}
use mcp_reverse_proxy.Prelude.Maps.{keys, lookup}
use mcp_reverse_proxy.Config.Types.{Server, ServerPatch, Header, File, Env}
use mcp_reverse_proxy.Config.Env.{or_else, lookup-copy_into}
use mcp_reverse_proxy.Config.Validate.{validate_servers}
use mcp_reverse_proxy.Config.Validate.Laws.{IsUsable, ids, validate_servers_iff}
use mcp_reverse_proxy.Config.Resolve.{apply, fresh, merged, patches, resolve, value_or, merge_env}
use mcp_reverse_proxy.Config.Resolve.Merge.{overlay, layered, merged-layered}

unfoldable pub find_server : Bytes → List Server → Option Server
find_server id [] = none
find_server id (s ∷ ss) = if s.id == id then some s else find_server id ss

-- The patches of one name in turn, over what the base has under that name.
unfoldable pub patched : Bytes → Option Server → List ServerPatch → Option Server
patched id o [] = o
patched id o (p ∷ ps) =
    patched id (if p.id == id then some (apply (value_or o (fresh id)) p) else o) ps

find-overlay :
    (id : Bytes) (ss : List Server) (p : ServerPatch)
    → find_server id (overlay ss p) ≡ (
        if p.id == id
        then some (apply (value_or (find_server id ss) (fresh id)) p)
        else find_server id ss)
unfolding find_server overlay apply fresh
find-overlay id [] p = elim (==-cases p.id id) [
  | inl (same, e) ↦ rw (same, e)
  | inr (other, _) ↦ rw other
]
find-overlay id (s ∷ ss) p = elim (==-cases s.id p.id) [
  | inl (same, e) ↦ rw (same, e) (ground (arith))
  | inr (other, ne) ↦
      rw other (ground (arith, find-overlay id ss p, list_beq_iff p.id id, list_beq_iff s.id id))
]

find-layered :
    (id : Bytes) (ss : List Server) (ps : List ServerPatch)
    → find_server id (layered ss ps) ≡ patched id (find_server id ss) ps
unfolding layered patched
find-layered id ss [] = refl
find-layered id ss (p ∷ ps) =
    find-layered id (overlay ss p) ps ∙ ap (λ o. patched id o ps) (find-overlay id ss p)

resolve-eq-ok :
    (base : File) (h : Option Header) {servers : List Server}
    → resolve base h ≡ ok servers
    → (validate_servers (merged base h) ≡ none) × (servers ≡ merged base h)
unfolding resolve
resolve-eq-ok base h e = elim (Option-cases (validate_servers (merged base h))) [
  | inl fine ↦ (fine, ground arith)
  | inr (x, bad) ↦ ground arith
]

-- Over a base whose identifiers differ, a resolved set has, under each name, the base's server of
-- that name (or a new one) with the header's patches of that name applied in order, and nothing
-- else: a server that the header does not name is the base's own.
pub resolve_lookup :
    (base : File) (h : Option Header) (id : Bytes) {servers : List Server}
    → Distinct (ids base.servers)
    → resolve base h ≡ ok servers
    → find_server id servers ≡ patched id (find_server id base.servers) (patches h)
resolve_lookup base h id d e =
    ap (find_server id) ((resolve-eq-ok base h e).1 ∙ merged-layered base h d)
    ∙ find-layered id base.servers (patches h)

pub resolve_iff :
    (base : File) (h : Option Header) (servers : List Server)
    → (resolve base h ≡ ok servers)
      ↔ ((servers ≡ merged base h) × All IsUsable servers × Distinct (ids servers))
resolve_iff base h servers = (
  λ e.
      let (fine, same) = resolve-eq-ok base h e in
      let (usable, distinct) = (validate_servers_iff servers).0 (rw same fine) in
      (same, usable, distinct),
  λ (same, usable, distinct). accepted same ((validate_servers_iff servers).1 (usable, distinct)),
)
  where
    accepted :
        servers ≡ merged base h → validate_servers servers ≡ none → resolve base h ≡ ok servers
    accepted same fine =
        let valid : validate_servers (merged base h) ≡ none = rw (← same) fine in
        rw same (unfold resolve in rw (valid, resolve))

-- The environment of a patched server has the header's value of a variable that the patch sets,
-- and the old value of any other.
pub apply-env :
    (s : Server) (p : ServerPatch) (new : Env) (k : Bytes)
    → p.env ≡ some new
    → Distinct (keys new)
    → lookup k (apply s p).env ≡ or_else (lookup k new) (lookup k s.env)
unfolding apply merge_env
apply-env s p new k e d = rw (e, merge_env) (lookup-copy_into k s.env new d)
