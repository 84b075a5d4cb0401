-- ===== src/Policy/Decide.antt =====
-- When a header may be applied, and what a refusal for want of scopes names.
use mcp_reverse_proxy.Prelude.{
  ℕ, ◌≤◌, ◌≡◌, refl, ◌∙◌, ◌≢◌, ◌↔◌, inl, inr, Bool, true, false, not, ◌&&◌, ◌||◌, none, some, List,
  [], ◌∷◌, arith, ltb, if◌then◌else◌, Bool-cases, Option-cases, ◌==◌, nat_eq, list_eq, Bytes, any,
  All, contains, Distinct,
}
use mcp_reverse_proxy.Prelude.Sorting.{
  contains-sort_by, contains-compact, compact-Sorted, compact-Distinct, sort_by-Sorted, sort_bytes,
  SortedBy, compact, bytes_order,
}
use mcp_reverse_proxy.Auth.Claims.{Claims, has_scope}
use mcp_reverse_proxy.Config.Types.{Header, File}
use mcp_reverse_proxy.Policy.{
  missing_scope, Mode, off, env_only, override_known, define_new, rank, scope_for, header_disabled,
  Policy, demands, known_servers, highest_of, missing_scopes, scope_verdict, decide_open, decide,
  check_header,
}

-- The claims carry the scope that a mode needs.
unfoldable pub granted : Claims → Mode → Bool
granted claims m = elim (scope_for m) [ none ↦ true | some scope ↦ has_scope claims scope ]

-- The privileges that a header exercises over a base configuration.
abbrev pub wanted : File → Header → List Mode
wanted base h = demands (known_servers base.servers) h.servers

rank-highest_of_iff :
    (top : ℕ) (m : Mode) (ms : List Mode)
    → (rank (highest_of m ms) ≤ top) ↔ ((rank m ≤ top) × All (λ k. rank k ≤ top) ms)
unfolding highest_of
rank-highest_of_iff top m [] = ground arith
rank-highest_of_iff top m (k ∷ ms) =
    ground (arith, rank-highest_of_iff top (if ltb (rank m) (rank k) then k else m) ms)

missing_scopes-nil_iff :
    (claims : Claims) (ms : List Mode)
    → (missing_scopes claims ms ≡ []) ↔ All (λ m. granted claims m ≡ true) ms
unfolding missing_scopes granted
missing_scopes-nil_iff claims [] = (λ _. tt, λ _. refl)
missing_scopes-nil_iff claims (m ∷ ms) = ground (arith, missing_scopes-nil_iff claims ms)

scope_verdict-none_iff : (ss : List Bytes) → (scope_verdict ss ≡ none) ↔ (ss ≡ [])
unfolding scope_verdict
scope_verdict-none_iff [] = (λ _. refl, λ _. refl)
scope_verdict-none_iff (s ∷ ss) = ground arith

decide_open-none_iff :
    (ceiling : Mode) (claims : Claims) (ms : List Mode)
    → (decide_open ceiling claims ms ≡ none) ↔ (
        (1 ≤ rank ceiling)
        × All (λ m. rank m ≤ rank ceiling) ms
        × All (λ m. granted claims m ≡ true) ms)
unfolding decide_open
decide_open-none_iff ceiling claims ms = ground (
  arith,
  rank-highest_of_iff (rank ceiling) env_only ms,
  missing_scopes-nil_iff claims ms,
  scope_verdict-none_iff (missing_scopes claims ms),
)

-- A header is accepted exactly when the deployment's mode is not the closed one, every privilege
-- that the header exercises lies within that mode, and the token carries the scope of each.
pub check_header_iff :
    (p : Policy) (claims : Claims) (base : File) (h : Header)
    → (check_header p claims base (some h) ≡ none) ↔ (
        (p.mode ≢ off)
        × All (λ m. rank m ≤ rank p.mode) (wanted base h)
        × All (λ m. granted claims m ≡ true) (wanted base h))
unfolding check_header decide
check_header_iff p claims base h = by_mode p.mode
  where
    by_mode :
        (m : Mode)
        → ((elim m [ off ↦ some header_disabled | k ↦ decide_open k claims (wanted base h) ])
            ≡ none)
          ↔ ((m ≢ off)
              × All (λ k. rank k ≤ rank m) (wanted base h)
              × All (λ k. granted claims k ≡ true) (wanted base h))
    by_mode off = ground arith
    by_mode env_only = ground (arith, decide_open-none_iff env_only claims (wanted base h))
    by_mode override_known =
        ground (arith, decide_open-none_iff override_known claims (wanted base h))
    by_mode define_new = ground (arith, decide_open-none_iff define_new claims (wanted base h))

-- The scope is one that a mode needs and the token lacks.
pub lacks : Claims → Bytes → Mode → Bool
lacks claims s m = elim (scope_for m) [
  | none ↦ false
  | some scope ↦ (scope == s) && not (has_scope claims scope)
]

contains-missing_scopes :
    (claims : Claims) (ms : List Mode) (s : Bytes)
    → contains (missing_scopes claims ms) s ≡ any (lacks claims s) ms
unfolding missing_scopes lacks
contains-missing_scopes claims [] s = refl
contains-missing_scopes claims (m ∷ ms) s = elim (Option-cases (scope_for m)) [
  | inl e ↦ rw (e, missing_scopes, lacks) (contains-missing_scopes claims ms s)
  | inr (scope, e) ↦ rw (e, missing_scopes, lacks) (one scope (contains-missing_scopes claims ms s))
]
  where
    one :
        (scope : Bytes)
        → contains (missing_scopes claims ms) s ≡ any (lacks claims s) ms
        → contains
            (if has_scope claims scope
              then missing_scopes claims ms
              else scope ∷ missing_scopes claims ms)
            s
          ≡ (((scope == s) && not (has_scope claims scope)) || any (lacks claims s) ms)
    one scope ih = elim (Bool-cases (has_scope claims scope)) [
      | inl held ↦ rw held (elim (Bool-cases (scope == s)) [ inl e ↦ rw e ih | inr e ↦ rw e ih ])
      | inr unheld ↦
          rw unheld (elim (Bool-cases (scope == s)) [ inl e ↦ rw e refl | inr e ↦ rw e ih ])
    ]

scope_verdict-missing :
    (xs : List Bytes) {ss : List Bytes}
    → scope_verdict xs ≡ some (missing_scope ss)
    → ss ≡ compact (sort_bytes xs)
unfolding scope_verdict
scope_verdict-missing [] e = cc
scope_verdict-missing (x ∷ xs) e = cc

decide-missing :
    (p : Policy) (claims : Claims) (base : File) (h : Header) {ss : List Bytes}
    → check_header p claims base (some h) ≡ some (missing_scope ss)
    → ss ≡ compact (sort_bytes (missing_scopes claims (wanted base h)))
unfolding check_header decide decide_open
decide-missing p claims base h e =
    ground (arith, scope_verdict-missing (missing_scopes claims (wanted base h)))

-- Scopes are asked for only where the mode allows what the header exercises.
pub missing_scope-within :
    (p : Policy) (claims : Claims) (base : File) (h : Header) (ss : List Bytes)
    → check_header p claims base (some h) ≡ some (missing_scope ss)
    → (p.mode ≢ off) × All (λ m. rank m ≤ rank p.mode) (wanted base h)
unfolding check_header decide decide_open
missing_scope-within p claims base h ss e =
    ground (arith, rank-highest_of_iff (rank p.mode) env_only (wanted base h))

-- A refusal for want of scopes names them all at once: the list is in order, without repetition,
-- and holds a scope exactly when a privilege that the header exercises needs it and the token does
-- not carry it.
pub missing_scope_complete :
    (p : Policy) (claims : Claims) (base : File) (h : Header) (ss : List Bytes)
    → check_header p claims base (some h) ≡ some (missing_scope ss)
    → Distinct ss
      × SortedBy (λ b. b) ss
      × ((s : Bytes) → contains ss s ≡ any (lacks claims s) (wanted base h))
missing_scope_complete p claims base h ss e =
    let xs = missing_scopes claims (wanted base h) in
    let sorted = sort_by-Sorted (λ b. b) xs in
    rw (decide-missing p claims base h e) (
      compact-Distinct (sort_bytes xs) (unfold sort_bytes in sorted),
      compact-Sorted (sort_bytes xs) (unfold sort_bytes in sorted),
      λ s.
          contains-compact (sort_bytes xs) s
          ∙ unfold sort_bytes in
            contains-sort_by (λ b. b) xs s ∙ contains-missing_scopes claims (wanted base h) s,
    )
