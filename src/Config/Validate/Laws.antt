-- ===== src/Config/Validate/Laws.antt =====
-- What `validateServers` accepts, and which problem it reports.
use mcp_reverse_proxy.Prelude.{
  ℕ, suc, ◌≡◌, refl, ◌↔◌, Bool, true, false, none, List, [], ◌∷◌, arith, nat_eq, list_beq_iff,
  list_eq, Bytes, is_empty, All, contains, Distinct,
}
use mcp_reverse_proxy.Config.Env.{has_empty_key}
use mcp_reverse_proxy.Prelude.Maps.{Map, keys, insert, lookup-none_iff, contains-keys-insert}
use mcp_reverse_proxy.Config.Types.{Server, known_era}
use mcp_reverse_proxy.Config.Validate.{validate_servers, check_server, validate_from}

-- A server that can be started and told apart.
pub record IsUsable (s : Server) : Type 0 where
  pub named : is_empty s.id ≡ false
  pub runs : is_empty s.command ≡ false
  pub speaks : known_era s.era ≡ true
  pub settable : has_empty_key s.env ≡ false

abbrev pub ids : List Server → List Bytes
ids [] = []
ids (s ∷ ss) = s.id ∷ ids ss

check_server_iff :
    (i : ℕ) (seen : Map Bytes ℕ) (s : Server)
    → (check_server i seen s ≡ none) ↔ (IsUsable s × (contains (keys seen) s.id ≡ false))
unfolding check_server
check_server_iff i seen s = ground (arith, lookup-none_iff s.id seen)

abbrev Unseen : Map Bytes ℕ → List Server → Type 0
Unseen seen = All (λ s. contains (keys seen) s.id ≡ false)

Unseen-insert :
    (k : Bytes) (i : ℕ) (seen : Map Bytes ℕ) (ss : List Server)
    → Unseen (insert k i seen) ss ↔ (Unseen seen ss × (contains (ids ss) k ≡ false))
Unseen-insert k i seen [] = (λ _. (tt, refl), λ _. tt)
Unseen-insert k i seen (s ∷ ss) = ground (
  arith,
  Unseen-insert k i seen ss,
  contains-keys-insert k s.id i seen,
  list_beq_iff k s.id,
  list_beq_iff s.id k,
)

validate_from_step :
    (i : ℕ) (seen : Map Bytes ℕ) (s : Server) (ss : List Server)
    → (validate_from i seen (s ∷ ss) ≡ none)
      ↔ ((check_server i seen s ≡ none) × (validate_from (suc i) (insert s.id i seen) ss ≡ none))
unfolding validate_from
validate_from_step i seen s ss = ground arith

validate_from_iff :
    (i : ℕ) (seen : Map Bytes ℕ) (ss : List Server)
    → (validate_from i seen ss ≡ none) ↔ (All IsUsable ss × Distinct (ids ss) × Unseen seen ss)
validate_from_iff i seen [] = (λ _. (tt, tt, tt), λ _. unfold validate_from in refl)
validate_from_iff i seen (s ∷ ss) =
    let step = validate_from_step i seen s ss in
    let head = check_server_iff i seen s in
    let tail = validate_from_iff (suc i) (insert s.id i seen) ss in
    let grown = Unseen-insert s.id i seen ss in
    (
      λ h.
          let (a, b) = step.0 h in
          let (usable, unseen) = head.0 a in
          let (all_usable, distinct, all_unseen) = tail.0 b in
          let (old, fresh) = grown.0 all_unseen in
          ((usable, all_usable), (fresh, distinct), (unseen, old)),
      λ h. step.1 (head.1 (h.0.0, h.2.0), tail.1 (h.0.1, h.1.1, grown.1 (h.2.1, h.1.0))),
    )

All-true {ℓ} : {A : Type ℓ} (xs : List A) → All (λ a. ◌≡◌ {A = Bool} false false) xs
All-true [] = tt
All-true (x ∷ xs) = (refl, All-true xs)

-- A server set is accepted exactly when every server has an identifier, a command, a known era and
-- no empty variable name, and no two servers share an identifier.
pub validate_servers_iff :
    (ss : List Server) → (validate_servers ss ≡ none) ↔ (All IsUsable ss × Distinct (ids ss))
unfolding validate_servers
validate_servers_iff ss =
    let whole = validate_from_iff 0 [] ss in
    (λ h. ((whole.0 h).0, (whole.0 h).1), λ h. whole.1 (h.0, h.1, All-true ss))
