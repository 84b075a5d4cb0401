-- ===== src/Policy/Bounds.antt =====
-- What a resolved server set may run and set, and what a deployment may be configured to allow.
use mcp_reverse_proxy.Prelude.{
  ◌≤◌, ◌≡◌, refl, subst, ◌≢◌, ◌↔◌, ◌⊎◌, inl, inr, true, false, Option, none, some, List, [], ◌∷◌,
  arith, Bool-cases, ok, nat_eq, list_eq, Bytes, any, All, contains,
}
use mcp_reverse_proxy.Auth.Claims.{Claims}
use mcp_reverse_proxy.Config.Types.{Server, ServerPatch, Header, PolicyConfig}
use mcp_reverse_proxy.Config.Env.{env_keys}
use mcp_reverse_proxy.Policy.Decide.{check_header_iff, wanted, granted}
use mcp_reverse_proxy.Policy.{
  scope_for, check_header, modes, File, has_scope, scopes, scopes_upto, Mode, off, env_only,
  override_known, define_new, rank, Policy, new_policy, build, check_commands, check_keys,
  patch_env, check_patches, header_check, check_resolved,
}

-- The allowlist is empty, or has the server's command.
abbrev pub Permitted : List Bytes → Server → Type 0
Permitted allowlist s = (allowlist ≡ []) ⊎ (contains allowlist s.command ≡ true)

-- No variable that the patch sets is on the denylist.
abbrev pub Harmless : List Bytes → ServerPatch → Type 0
Harmless denylist p = any (contains denylist) (env_keys (patch_env p)) ≡ false

check_commands_iff :
    (allowlist : List Bytes) (ss : List Server)
    → (check_commands allowlist ss ≡ none) ↔ All (Permitted allowlist) ss
unfolding check_commands
check_commands_iff [] [] = (λ _. tt, λ _. refl)
check_commands_iff (a ∷ rest) [] = (λ _. tt, λ _. refl)
check_commands_iff [] (s ∷ ss) =
    let rest = check_commands_iff [] ss in (λ h. (inl refl, rest.0 h), λ h. rest.1 h.1)
check_commands_iff (a ∷ rest) (s ∷ ss) =
    let later = check_commands_iff (a ∷ rest) ss in
    elim (Bool-cases (contains (a ∷ rest) s.command)) [
      | inl listed ↦ rw listed (λ h. (inr refl, later.0 h), λ h. later.1 h.1)
      | inr unlisted ↦ rw unlisted (λ h. cc, λ h. elim h.0 [ inl e ↦ cc | inr e ↦ cc ])
    ]

check_keys_iff :
    (denylist : List Bytes) (id : Bytes) (ks : List Bytes)
    → (check_keys denylist id ks ≡ none) ↔ (any (contains denylist) ks ≡ false)
unfolding check_keys
check_keys_iff denylist id [] = (λ _. refl, λ _. refl)
check_keys_iff denylist id (k ∷ ks) = ground (arith, check_keys_iff denylist id ks)

check_patches_iff :
    (denylist : List Bytes) (ps : List ServerPatch)
    → (check_patches denylist ps ≡ none) ↔ All (Harmless denylist) ps
unfolding check_patches
check_patches_iff denylist [] = (λ _. tt, λ _. refl)
check_patches_iff denylist (p ∷ ps) =
    ground
      (arith, check_keys_iff denylist p.id (env_keys (patch_env p)), check_patches_iff denylist ps)

abbrev pub header_patches : Option Header → List ServerPatch
header_patches none = []
header_patches (some h) = h.servers

header_check_iff :
    (denylist : List Bytes) (h : Option Header)
    → (header_check denylist h ≡ none) ↔ All (Harmless denylist) (header_patches h)
unfolding header_check
header_check_iff denylist none = (λ _. tt, λ _. refl)
header_check_iff denylist (some h) = check_patches_iff denylist h.servers

pub check_resolved_iff :
    (p : Policy) (resolved : List Server) (h : Option Header)
    → (check_resolved p resolved h ≡ none)
      ↔ (All (Permitted p.allowlist) resolved × All (Harmless p.denylist) (header_patches h))
unfolding check_resolved
check_resolved_iff p resolved h =
    ground (arith, check_commands_iff p.allowlist resolved, header_check_iff p.denylist h)

build-define_new :
    (m : Mode) (c : PolicyConfig) {p : Policy}
    → build m c ≡ ok p
    → p.mode ≡ define_new
    → (p.allowlist ≡ c.command_allowlist) × (c.command_allowlist ≢ [])
unfolding build
build-define_new off c e d = ground arith
build-define_new env_only c e d = ground arith
build-define_new override_known c e d = ground arith
build-define_new define_new c e d = ground arith

new_policy-define_new :
    (c : PolicyConfig) {p : Policy}
    → new_policy c ≡ ok p
    → p.mode ≡ define_new
    → (p.allowlist ≡ c.command_allowlist) × (c.command_allowlist ≢ [])
unfolding new_policy
new_policy-define_new c e d = ground (
  arith,
  build-define_new off c,
  build-define_new env_only c,
  build-define_new override_known c,
  build-define_new define_new c,
)

Permitted-listed :
    (allowlist : List Bytes) (ss : List Server)
    → allowlist ≢ []
    → All (Permitted allowlist) ss
    → All (λ s. contains allowlist s.command ≡ true) ss
Permitted-listed allowlist [] ne _ = tt
Permitted-listed allowlist (s ∷ ss) ne (inl e, hs) = absurd (ne e)
Permitted-listed allowlist (s ∷ ss) ne (inr e, hs) = (e, Permitted-listed allowlist ss ne hs)

-- Under a policy that lets requests declare servers, whatever passes the checks runs nothing but
-- the commands that the deployment listed.
pub define_new_runs_listed :
    (c : PolicyConfig) (p : Policy) (resolved : List Server) (h : Option Header)
    → new_policy c ≡ ok p
    → p.mode ≡ define_new
    → check_resolved p resolved h ≡ none
    → All (λ s. contains c.command_allowlist s.command ≡ true) resolved
define_new_runs_listed c p resolved h made mode passed =
    let (same, ne) = new_policy-define_new c made mode in
    let permitted = ((check_resolved_iff p resolved h).0 passed).0 in
    Permitted-listed c.command_allowlist resolved ne
      (subst (λ l. All (Permitted l) resolved) same permitted)

-- What `Policy.Scopes` advertises is enough for every mode up to the ceiling.
advertised_suffices :
    (ceiling m : Mode) (claims : Claims)
    → All (λ s. has_scope claims s ≡ true) (scopes_upto ceiling modes)
    → rank m ≤ rank ceiling
    → granted claims m ≡ true
unfolding scopes_upto granted scope_for
advertised_suffices ceiling off claims held h = refl
advertised_suffices off env_only claims held h = absurd (omega arith)
advertised_suffices env_only env_only claims held h = held.0
advertised_suffices override_known env_only claims held h = held.0
advertised_suffices define_new env_only claims held h = held.0
advertised_suffices off override_known claims held h = absurd (omega arith)
advertised_suffices env_only override_known claims held h = absurd (omega arith)
advertised_suffices override_known override_known claims held h = held.1.0
advertised_suffices define_new override_known claims held h = held.1.0
advertised_suffices off define_new claims held h = absurd (omega arith)
advertised_suffices env_only define_new claims held h = absurd (omega arith)
advertised_suffices override_known define_new claims held h = absurd (omega arith)
advertised_suffices define_new define_new claims held h = held.1.1.0

advertised_suffices-All :
    (ceiling : Mode) (claims : Claims) (ms : List Mode)
    → All (λ s. has_scope claims s ≡ true) (scopes_upto ceiling modes)
    → All (λ m. rank m ≤ rank ceiling) ms
    → All (λ m. granted claims m ≡ true) ms
advertised_suffices-All ceiling claims [] held _ = tt
advertised_suffices-All ceiling claims (m ∷ ms) held (hm, hs) = (
  advertised_suffices ceiling m claims held hm,
  advertised_suffices-All ceiling claims ms held hs,
)

-- For a token that carries every scope which the deployment advertises, a header is accepted
-- exactly when the deployment takes headers and its mode covers what the header exercises: no
-- further scope is ever asked for.
pub advertised_scopes_suffice :
    (p : Policy) (claims : Claims) (base : File) (h : Header)
    → All (λ s. has_scope claims s ≡ true) (scopes p)
    → (check_header p claims base (some h) ≡ none)
      ↔ ((p.mode ≢ off) × All (λ m. rank m ≤ rank p.mode) (wanted base h))
unfolding scopes
advertised_scopes_suffice p claims base h held =
    let whole = check_header_iff p claims base h in
    (
      λ e. ((whole.0 e).0, (whole.0 e).1),
      λ (open_mode, within).
          whole.1
            (open_mode, within, advertised_suffices-All p.mode claims (wanted base h) held within),
    )
