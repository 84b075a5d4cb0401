-- ===== src/Config/File/Accepted.antt =====
-- internal/config/config.go: which configuration files are accepted, and with which limits.
use mcp_reverse_proxy.Config.File.{
  apply_defaults, FileError, validate, validate_limits, defaulted, limit_fields, first_negative,
  check_limits, or_default,
}
use mcp_reverse_proxy.Prelude.{
  zero, suc, ◌≡◌, refl, ◌↔◌, inl, inr, true, false, Option, none, some, List, [], ◌∷◌, arith,
  Bool-cases, nat_eq, list_eq, Bytes, All, Distinct,
}
use mcp_reverse_proxy.Prelude.Int.{ℤ, pos, negsuc, gtb, is_negative, is_zero, min_ℤ}
use mcp_reverse_proxy.Config.Types.{File, Limits}
use mcp_reverse_proxy.Config.Validate.{ServersError, validate_servers}
use mcp_reverse_proxy.Config.Validate.Laws.{IsUsable, ids, validate_servers_iff}

-- A number above 0.
unfoldable pub Positive : ℤ → Type 0
Positive z = gtb z (pos 0) ≡ true

-- The limits that a gateway starts with.
pub record Bounded (l : Limits) : Type 0 where
  pub max_processes : Positive l.max_processes
  pub max_processes_per_subject : Positive l.max_processes_per_subject
  pub idle_ttl : Positive l.idle_ttl
  pub probe_timeout : Positive l.probe_timeout
  pub max_header_bytes : Positive l.max_header_bytes
  pub within : gtb l.max_processes_per_subject l.max_processes ≡ false

-- A limit is not negative.
record NotNegative (l : Limits) : Type 0 where
  max_processes : is_negative l.max_processes ≡ false
  max_processes_per_subject : is_negative l.max_processes_per_subject ≡ false
  idle_ttl : is_negative l.idle_ttl ≡ false
  probe_timeout : is_negative l.probe_timeout ≡ false
  max_header_bytes : is_negative l.max_header_bytes ≡ false
  within : gtb l.max_processes_per_subject l.max_processes ≡ false

sign_cases : (z : ℤ) → (is_negative z ≡ false) × (is_zero z ≡ false) ↔ Positive z
unfolding Positive
sign_cases (pos zero) = ground arith
sign_cases (pos (suc n)) = ground arith
sign_cases (negsuc n) = ground arith

or_default-nonzero :
    (given default : ℤ) → is_zero default ≡ false → is_zero (or_default given default) ≡ false
unfolding or_default
or_default-nonzero given default h = elim (Bool-cases (is_zero given)) [
  | inl absent ↦ rw absent h
  | inr present ↦ rw present present
]

-- A limit that has a default is positive when it is not negative.
or_default-Positive :
    (given default : ℤ)
    → is_zero default ≡ false
    → (is_negative (or_default given default) ≡ false) ↔ Positive (or_default given default)
or_default-Positive given default h =
    let (to, from) = sign_cases (or_default given default) in
    ((λ k. to (k, or_default-nonzero given default h)), λ p. (from p).0)

first_negative_iff :
    {E : Type 0} (fields : List (Bytes × ℤ))
    → (first_negative {E = E} fields ≡ none)
      ↔ All (λ (field, value). is_negative value ≡ false) fields
unfolding first_negative
first_negative_iff {E} [] = ((λ _. tt), λ _. refl)
first_negative_iff {E} ((field, value) ∷ rest) = ground (arith, first_negative_iff {E = E} rest)

check_limits-none :
    {E : Type 0} (l : Limits) (o : Option (FileError E))
    → (check_limits l o ≡ none)
      ↔ ((o ≡ none) × (gtb l.max_processes_per_subject l.max_processes ≡ false))
unfolding check_limits
check_limits-none l (some e) = ((λ h. absurd cc), λ (h, _). absurd cc)
check_limits-none l none = ground arith

check_limits_iff :
    {E : Type 0} (l : Limits)
    → (check_limits {E = E} l (first_negative (limit_fields l)) ≡ none) ↔ NotNegative l
unfolding limit_fields
check_limits_iff {E} l =
    let (to, from) = check_limits-none l (first_negative {E = E} (limit_fields l)) in
    let (sign, unsign) = first_negative_iff {E = E} (limit_fields l) in
    (
      λ h.
          let (none_negative, within) = to h in
          let (m, (p, (b, (i, (t, _))))) = sign none_negative in
          record {
            max_processes = m;
            max_processes_per_subject = p;
            idle_ttl = i;
            probe_timeout = t;
            max_header_bytes = b;
            within = within;
          },
      λ n. from (
        unsign (
          n.max_processes,
          (n.max_processes_per_subject, (n.max_header_bytes, (n.idle_ttl, (n.probe_timeout, tt)))),
        ),
        n.within,
      ),
    )

subject_default : (given : ℤ) → is_zero (min_ℤ (pos 8) (or_default given (pos 64))) ≡ false
unfolding or_default
subject_default (pos zero) = ground arith
subject_default (pos (suc n)) = ground arith
subject_default (negsuc n) = refl

defaulted-Bounded : (l : Limits) → NotNegative (defaulted l) ↔ Bounded (defaulted l)
unfolding defaulted
defaulted-Bounded l =
    let m = or_default-Positive l.max_processes (pos 64) refl in
    let p =
      or_default-Positive l.max_processes_per_subject
        (min_ℤ (pos 8) (or_default l.max_processes (pos 64))) (subject_default l.max_processes) in
    let i = or_default-Positive l.idle_ttl (pos 300000000000) refl in
    let t = or_default-Positive l.probe_timeout (pos 2000000000) refl in
    let b = or_default-Positive l.max_header_bytes (pos 8192) refl in
    (
      λ h. record {
        max_processes = m.0 h.max_processes;
        max_processes_per_subject = p.0 h.max_processes_per_subject;
        idle_ttl = i.0 h.idle_ttl;
        probe_timeout = t.0 h.probe_timeout;
        max_header_bytes = b.0 h.max_header_bytes;
        within = h.within;
      },
      λ h. record {
        max_processes = m.1 h.max_processes;
        max_processes_per_subject = p.1 h.max_processes_per_subject;
        idle_ttl = i.1 h.idle_ttl;
        probe_timeout = t.1 h.probe_timeout;
        max_header_bytes = b.1 h.max_header_bytes;
        within = h.within;
      },
    )

validate_limits-none :
    {E : Type 0} (l : Limits) (o : Option ServersError)
    → (validate_limits {E = E} l o ≡ none) ↔ ((o ≡ none) × NotNegative l)
unfolding validate_limits
validate_limits-none l (some e) = ((λ h. absurd cc), λ (h, _). absurd cc)
validate_limits-none {E} l none =
    let (to, from) = check_limits_iff {E = E} l in ((λ h. (refl, to h)), λ (_, n). from n)

-- A configuration that a gateway starts with.
pub record IsAccepted (f : File) : Type 0 where
  pub usable : All IsUsable f.servers
  pub distinct : Distinct (ids f.servers)
  pub bounded : Bounded f.limits

pub validate_iff :
    {E : Type 0} (f : File)
    → (validate {E = E} (apply_defaults f) ≡ none) ↔ IsAccepted (apply_defaults f)
unfolding validate apply_defaults
validate_iff {E} f =
    let g = apply_defaults f in
    let (to, from) = validate_limits-none {E = E} g.limits (validate_servers g.servers) in
    let (sound, complete) = validate_servers_iff g.servers in
    let (bound, unbound) = defaulted-Bounded f.limits in
    (
      λ h.
          let (served, n) = to h in
          let (usable, distinct) = sound served in
          record { usable = usable; distinct = distinct; bounded = bound n },
      λ a. from (complete (a.usable, a.distinct), unbound a.bounded),
    )
