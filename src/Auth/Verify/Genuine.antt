-- ===== src/Auth/Verify/Genuine.antt =====
-- internal/auth/verify.go: which tokens are accepted.
use mcp_reverse_proxy.Prelude.{
  ℕ, ◌≤◌, ◌<◌, ◌≡◌, refl, sym, subst, ◌↔◌, inl, inr, Bool, true, false, Option, none, some, [], ◌∷◌,
  arith, Bool-cases, Result, ok, err, nat_eq, list_eq, Bytes, is_empty, contains, non_empty,
}
use mcp_reverse_proxy.Auth.Claims.{Claims, is_identified}
use mcp_reverse_proxy.Auth.Verify.{
  TokenHead, TokenClaims, Parser, Verifier, ParseError, key_for, key_of_head, or_no_kid, verify,
  accepted, claims_of, subject_of, signing_methods,
}

-- What a token says, the tokens that a key has signed, and the time.
pub record Tokens (K : Type 0) : Type 0 where
  pub head : Bytes → Option TokenHead
  pub claims : Bytes → TokenClaims
  pub is_signed : K → Bytes → Bool
  pub now : ℕ

-- A time that is given is not in the future.
unfoldable pub HasCome : ℕ → Option ℕ → Type 0
HasCome now none = Unit
HasCome now (some t) = t ≤ now

module _ {K : Type 0} (w : Tokens K) (v : Verifier K) where
  -- A token that the issuer of its claims signed with this key, for this audience and this time.
  pub record Signed (token : Bytes) (c : TokenClaims) (kid : Option Bytes) (key : K) : Type 0 where
    pub says : w.claims token ≡ c
    pub alg : Bytes
    pub headed : w.head token ≡ some (record { issuer = some c.issuer; kid = kid; alg = alg })
    pub asymmetric : contains signing_methods alg ≡ true
    pub signed : w.is_signed key token ≡ true
    pub audience : contains c.audience v.audience ≡ true
    pub expiry : ℕ
    pub expires : c.expires_at ≡ some expiry
    pub unexpired : w.now < expiry
    pub begun : HasCome w.now c.not_before
    pub issued : HasCome w.now c.issued_at

  -- The documented behaviour of the parser: it accepts a token exactly if the key function finds a
  -- key for it, and the key's holder signed it for the audience and the time.
  unfoldable pub Documented : Parser K → Type 0
  Documented parse =
      (token : Bytes) (c : TokenClaims)
      → (parse signing_methods v.audience (key_for v) token ≡ ok c) ↔ (
          (kid : Option Bytes) × ((key : K) × ((s : Signed token c kid key) × (key_for v
                  (record { issuer = some c.issuer; kid = kid; alg = s.alg })
                ≡ ok key))))

  -- What an accepted token stands for.
  pub record Admitted (token : Bytes) (c : Claims) : Type 0 where
    pub claims : TokenClaims
    pub kid : Option Bytes
    pub key : K
    pub trusted : contains v.issuers claims.issuer ≡ true
    pub found : v.keys claims.issuer (or_no_kid kid) ≡ ok key
    pub genuine : Signed token claims kid key
    pub identified : is_identified (subject_of claims) ≡ true
    pub result : c ≡ claims_of claims

  key_for_iff :
      (issuer alg : Bytes) (kid : Option Bytes) (key : K)
      → (key_for v (record { issuer = some issuer; kid = kid; alg = alg }) ≡ ok key)
        ↔ ((contains v.issuers issuer ≡ true) × (v.keys issuer (or_no_kid kid) ≡ ok key))
  unfolding key_for key_of_head
  key_for_iff issuer alg kid key = elim (Bool-cases (contains v.issuers issuer)) [
    | inl trusted ↦ rw trusted ((λ h. (refl, h)), λ (_, h). h)
    | inr unknown ↦ rw unknown ((λ h. absurd cc), λ (h, _). absurd cc)
  ]

  accepted-ok :
      (r : Result ParseError TokenClaims) (c : Claims)
      → (accepted v r ≡ ok c) ↔ (
          (t : TokenClaims) × ((r ≡ ok t)
            × ((contains v.issuers t.issuer ≡ true)
                × ((is_identified (subject_of t) ≡ true) × (c ≡ claims_of t)))))
  unfolding accepted
  accepted-ok (err e) c = ((λ h. absurd cc), λ (t, (h, _)). absurd cc)
  accepted-ok (ok t) c = (
    λ h. elim (Bool-cases (contains v.issuers t.issuer)) [
      | inr unknown ↦ absurd (ground (arith, unknown, h))
      | inl trusted ↦ elim (Bool-cases (is_identified (subject_of t))) [
        | inr nobody ↦ absurd (ground (arith, trusted, nobody, h))
        | inl identified ↦
            (t, (refl, (trusted, (identified, ground (arith, trusted, identified, h)))))
      ]
    ],
    λ (x, (same, (trusted, (identified, result)))).
        let e : t ≡ x = cc in
        subst (λ y. accepted v (ok y) ≡ ok c) (sym e) (rw (trusted, identified, result) refl),
  )

  -- A token is accepted exactly if it is not empty, an issuer that the verifier trusts signed it
  -- with a key that the key source has for it, by an asymmetric algorithm, for this resource and
  -- this time, and it identifies a subject; if the JWT parser does what it documents.
  pub verify_iff :
      (parse : Parser K)
      → Documented parse
      → (token : Bytes) (c : Claims)
      → (verify parse v token ≡ ok c) ↔ ((non_empty token ≡ true) × Admitted token c)
  unfolding verify Documented is_empty
  verify_iff parse documented token c = (
    λ h. elim (Bool-cases (is_empty token)) [
      | inl empty ↦ absurd (ground (arith, empty, h))
      | inr given ↦
          let h' : accepted v (parse signing_methods v.audience (key_for v) token) ≡ ok c =
            ground (arith, given, h) in
          let (t, (e, (trusted, (identified, result)))) = (accepted-ok _ c).0 h' in
          let (kid, (key, (s, k))) = (documented token t).0 e in
          (
            present token given,
            record {
              claims = t;
              kid = kid;
              key = key;
              trusted = trusted;
              found = ((key_for_iff t.issuer s.alg kid key).0 k).1;
              genuine = s;
              identified = identified;
              result = result;
            },
          )
    ],
    λ (given, a).
        let k = (key_for_iff a.claims.issuer a.genuine.alg a.kid a.key).1 (a.trusted, a.found) in
        let e = (documented token a.claims).1 (a.kid, (a.key, (a.genuine, k))) in
        let known =
          (accepted-ok (parse signing_methods v.audience (key_for v) token) c).1
            (a.claims, (e, (a.trusted, (a.identified, a.result)))) in
        rw (absent token given) known,
  )
    where
      present : (s : Bytes) → is_empty s ≡ false → non_empty s ≡ true
      present [] h = cc
      present (x ∷ xs) h = refl

      absent : (s : Bytes) → non_empty s ≡ true → is_empty s ≡ false
      absent [] h = cc
      absent (x ∷ xs) h = refl
