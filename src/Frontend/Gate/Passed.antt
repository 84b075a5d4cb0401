-- ===== src/Frontend/Gate/Passed.antt =====
-- internal/frontend/gate.go: which requests pass.
use mcp_reverse_proxy.Prelude.{
  ◌≡◌, refl, sym, ap, ◌∙◌, subst, ◌≢◌, ◌↔◌, ◌⊎◌, inl, inr, Bool, true, false, not, ◌&&◌, Option,
  none, some, [], ◌∷◌, arith, if◌then◌else◌, Option-cases, ◌==◌, nat_eq, list_beq_iff, list_eq,
  ==-cases, Bytes, is_empty, contains, codes, non_empty,
}
use mcp_reverse_proxy.Frontend.Gate.{
  bad_request, handshake_removed, method_removed, header_missing, header_mismatch,
  version_unsupported, Call, HttpRequest, Gated, passed, declared, requested, peek, gate, gate_call,
  gate_body, gate_peeked, removed_methods, supported_versions,
}

is_passed : Gated → Bool
is_passed passed = true
is_passed bad_request = false
is_passed (handshake_removed i) = false
is_passed (method_removed i m) = false
is_passed (header_missing i) = false
is_passed (header_mismatch i h b) = false
is_passed (version_unsupported i v) = false

-- A case that refuses does not apply to a request that passes.
case_refuses :
    (t : Bool) (x y : Gated)
    → is_passed x ≡ false
    → ((if t then x else y) ≡ passed) ↔ ((t ≡ false) × (y ≡ passed))
unfolding is_passed
case_refuses true x y n = ((λ h. absurd (differ (sym n ∙ ap is_passed h))), λ (h, _). absurd cc)
  where
    differ : ¬ (◌≡◌ {A = Bool} false true)
    differ h = cc
case_refuses false x y n = ((λ h. (refl, h)), λ (_, h). h)

-- The one version that the endpoint speaks is the header's, and the body's if it names one.
one_version :
    (v header said : Bytes)
    → is_empty v ≡ false
    → ((is_empty header ≡ false)
        × (((non_empty said && not (said == header)) ≡ false)
            × (not (contains (v ∷ []) (if non_empty said then said else header)) ≡ false)))
      ↔ ((header ≡ v) × ((said ≡ []) ⊎ (said ≡ header)))
one_version v header [] speaks = (
  λ (_, (_, known)). (ground (arith, known, list_beq_iff v header), inl refl),
  λ (same, _). (
    subst (λ x. is_empty x ≡ false) (sym same) speaks,
    (refl, ground (arith, same, list_beq_iff v header)),
  ),
)
one_version v header (x ∷ said) speaks = (
  λ (_, (agree, known)).
      let same : x ∷ said ≡ header = ground (arith, agree, list_beq_iff (x ∷ said) header) in
      let named : v ≡ x ∷ said = ground (arith, known, list_beq_iff v (x ∷ said)) in
      (sym same ∙ sym named, inr same),
  λ (same, agree).
      let spoken : x ∷ said ≡ header = fits agree in
      let named : v ≡ x ∷ said = sym same ∙ sym spoken in
      (
        subst (λ y. is_empty y ≡ false) (sym same) speaks,
        (
          ground (arith, spoken, list_beq_iff (x ∷ said) header),
          ground (arith, named, list_beq_iff v (x ∷ said)),
        ),
      ),
)
  where
    fits : (x ∷ said ≡ []) ⊎ (x ∷ said ≡ header) → x ∷ said ≡ header
    fits (inl h) = absurd cc
    fits (inr h) = h

module _ (decode : Bytes → Option Call) (decode_text : Bytes → Option Bytes) where
  -- A call of the revision that the endpoint speaks, which its header names, and its body too if it
  -- names one.
  pub record IsCurrent (c : Call) (header : Bytes) : Type 0 where
    pub no_handshake : c.method ≢ codes "initialize"
    pub kept : contains removed_methods c.method ≡ false
    pub version : header ≡ codes "2026-07-28"
    pub agrees : (declared decode decode_text c ≡ []) ⊎ (declared decode decode_text c ≡ header)

  gate_call-passed :
      (c : Call) (header : Bytes)
      → (gate_call decode decode_text c header ≡ passed) ↔ IsCurrent c header
  unfolding gate_call requested is_empty is_passed
  gate_call-passed c header =
      let said = declared decode decode_text c in
      let (to, from) = one_version (codes "2026-07-28") header said refl in
      (
        λ h.
            let (handshake, h₁) = (case_refuses (c.method == codes "initialize") _ _ refl).0 h in
            let (removed, h₂) = (case_refuses (contains removed_methods c.method) _ _ refl).0 h₁ in
            let (missing, h₃) = (case_refuses (is_empty header) _ _ refl).0 h₂ in
            let (mismatch, h₄) =
              (case_refuses (non_empty said && not (said == header)) _ _ refl).0 h₃ in
            let (unsupported, _) =
              (case_refuses
                  (not (contains supported_versions (requested decode decode_text c header))) _ _
                  refl).0
                h₄ in
            let (version, agrees) = to (missing, (mismatch, unsupported)) in
            record {
              no_handshake = ground (arith, handshake, list_beq_iff c.method (codes "initialize"));
              kept = removed;
              version = version;
              agrees = agrees;
            },
        λ p.
            let (missing, (mismatch, unsupported)) = from (p.version, p.agrees) in
            let handshake : (c.method == codes "initialize") ≡ false =
              ground (arith, p.no_handshake, list_beq_iff c.method (codes "initialize")) in
            rw (handshake, p.kept, missing, mismatch, unsupported) refl,
      )

  unread :
      (r : HttpRequest)
      → (r.method == codes "POST") ≡ true
      → r.body ≡ none
      → gate decode decode_text r ≡ bad_request
  unfolding gate gate_body
  unread r post e = rw (post, e) refl

  no_call :
      (r : HttpRequest) (body : Bytes)
      → (r.method == codes "POST") ≡ true
      → r.body ≡ some body
      → peek decode decode_text body ≡ none
      → gate decode decode_text r ≡ passed
  unfolding gate gate_body gate_peeked
  no_call r body post e k = rw (post, e, k) refl

  called :
      (r : HttpRequest) (body : Bytes) (c : Call)
      → (r.method == codes "POST") ≡ true
      → r.body ≡ some body
      → peek decode decode_text body ≡ some c
      → gate decode decode_text r ≡ gate_call decode decode_text c r.version_header
  unfolding gate gate_body gate_peeked
  called r body c post e k = rw (post, e, k) refl

  other_method :
      (r : HttpRequest) → (r.method == codes "POST") ≡ false → gate decode decode_text r ≡ passed
  unfolding gate
  other_method r other = rw other refl

  not_passed : (x : Gated) → x ≡ passed → is_passed x ≡ false → ⊥
  unfolding is_passed
  not_passed x e n = differ (sym n ∙ ap is_passed e)
    where
      differ : ¬ (◌≡◌ {A = Bool} false true)
      differ h = cc

  -- The requests that the gate leaves to the SDK handler.
  pub data Passes (r : HttpRequest) : Type 0 where
    other_kind : r.method ≢ codes "POST" → Passes r
    not_a_call :
        (body : Bytes)
        → r.method ≡ codes "POST"
        → r.body ≡ some body
        → peek decode decode_text body ≡ none
        → Passes r
    current :
        (body : Bytes) (c : Call)
        → r.method ≡ codes "POST"
        → r.body ≡ some body
        → peek decode decode_text body ≡ some c
        → IsCurrent c r.version_header
        → Passes r

  is_post : (method : Bytes) → method ≡ codes "POST" → (method == codes "POST") ≡ true
  is_post method h = elim (==-cases method (codes "POST")) [
    | inl (post, _) ↦ post
    | inr (_, differs) ↦ absurd (differs h)
  ]

  gate-passed : (r : HttpRequest) → Passes r → gate decode decode_text r ≡ passed
  gate-passed r (other_kind differs) = elim (==-cases r.method (codes "POST")) [
    | inl (_, post) ↦ absurd (differs post)
    | inr (other, _) ↦ other_method r other
  ]
  gate-passed r (not_a_call body post e k) = no_call r body (is_post r.method post) e k
  gate-passed r (current body c post e k known) =
      called r body c (is_post r.method post) e k ∙ (gate_call-passed c r.version_header).1 known

  -- A request passes exactly if it is not a POST, or its body is no single call for the gate to
  -- read, or it calls a method that was not removed, in the revision that the endpoint speaks: the
  -- header names that revision, and so does the body if it names one.
  pub gate_iff : (r : HttpRequest) → (gate decode decode_text r ≡ passed) ↔ Passes r
  unfolding is_passed
  gate_iff r = (
    λ h. elim (==-cases r.method (codes "POST")) [
      | inr (_, differs) ↦ other_kind differs
      | inl (given, post) ↦ elim (Option-cases r.body) [
        | inl e ↦ absurd (not_passed bad_request (sym (unread r given e) ∙ h) refl)
        | inr (body, e) ↦ elim (Option-cases (peek decode decode_text body)) [
          | inl k ↦ not_a_call body post e k
          | inr (c, k) ↦
              current body c post e k
                ((gate_call-passed c r.version_header).0 (sym (called r body c given e k) ∙ h))
        ]
      ]
    ],
    gate-passed r,
  )
