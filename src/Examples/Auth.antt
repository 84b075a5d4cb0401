-- ===== src/Examples/Auth.antt =====
-- internal/auth/verify.go at concrete inputs.
use mcp_reverse_proxy.Prelude.{
  ℕ, ◌≡◌, refl, sym, ap, subst, ◌↔◌, inl, inr, true, false, ◌&&◌, Option, none, some, [], ◌∷◌,
  arith, if◌then◌else◌, Result, ok, err, ◌==◌, nat_eq, list_eq, ==-cases, Bytes, is_empty, codes,
  non_empty,
}
use mcp_reverse_proxy.Auth.Verify.{
  TokenClaims, Parser, ParseError, Verifier, static_key, verify, claims_of, key_for,
}
use mcp_reverse_proxy.Auth.Verify.Genuine.{
  HasCome, Signed, Tokens, Documented, Admitted, verify_iff,
}
use mcp_reverse_proxy.Auth.Require.{cut_bearer}

-- Keys are numbers.
abbrev pub verifier : Verifier ℕ
verifier = record {
  keys = static_key ((codes "https://i", (codes "k1", 7) ∷ []) ∷ []);
  issuers = codes "https://i" ∷ [];
  audience = codes "https://r";
}

abbrev pub ann : TokenClaims
ann = record {
  issuer = codes "https://i";
  subject = codes " ann ";
  audience = codes "https://r" ∷ [];
  expires_at = some 200;
  not_before = none;
  issued_at = some 50;
  scope = codes "mcp:access  mcp:env";
}

-- Every token says that it is Ann's; only the text `good` was signed, with key 7.
abbrev tokens : Tokens ℕ
tokens = record {
  head = λ token.
      some (record {
        issuer = some (codes "https://i");
        kid = some (codes "k1");
        alg = codes "RS256";
      });
  claims = λ token. ann;
  is_signed = λ key token. (key == 7) && (token == codes "good");
  now = 100;
}

-- A parser for these tokens.
abbrev parse_good : Parser ℕ
parse_good methods audience key_of token =
    if token == codes "good"
    then ok ann
    else err (record { is_unknown_issuer = false; is_wrong_audience = false })

words_test : claims_of ann ≡ record {
  subject = record { issuer = codes "https://i"; sub = codes "ann" };
  scopes = codes "mcp:access" ∷ codes "mcp:env" ∷ [];
}
unfolding claims_of mcp_reverse_proxy.Auth.Verify.subject_of
    mcp_reverse_proxy.Auth.Verify.parse_scopes mcp_reverse_proxy.Auth.Words.trim_space
    mcp_reverse_proxy.Auth.Words.fields mcp_reverse_proxy.Auth.Words.trim_start
    mcp_reverse_proxy.Auth.Words.after_space mcp_reverse_proxy.Auth.Words.is_space
    mcp_reverse_proxy.Auth.Words.backwards is_empty
words_test = refl

bearer_test : cut_bearer (codes "bEARER  abc ") ≡ some (codes "abc")
unfolding cut_bearer mcp_reverse_proxy.Auth.Require.after_scheme
    mcp_reverse_proxy.Auth.Require.non_blank mcp_reverse_proxy.Auth.Words.trim_space
    mcp_reverse_proxy.Auth.Words.trim_start mcp_reverse_proxy.Auth.Words.after_space
    mcp_reverse_proxy.Auth.Words.is_space mcp_reverse_proxy.Auth.Words.backwards
    mcp_reverse_proxy.Auth.Words.equal_fold mcp_reverse_proxy.Auth.Words.to_lower
    mcp_reverse_proxy.Aggregate.Uri.cut_at is_empty
bearer_test = refl

good-Signed : Signed tokens verifier (codes "good") ann (some (codes "k1")) 7
unfolding HasCome
good-Signed = record {
  says = refl;
  alg = codes "RS256";
  headed = refl;
  asymmetric = refl;
  signed = refl;
  audience = refl;
  expiry = 200;
  expires = refl;
  unexpired = omega arith;
  begun = tt;
  issued = omega arith;
}

-- What the documentation says of an accepted token.
abbrev Found : Bytes → TokenClaims → Type 0
Found token c =
    (kid : Option Bytes) × ((key : ℕ) × ((s : Signed tokens verifier token c kid key) × (key_for
            verifier (record { issuer = some c.issuer; kid = kid; alg = s.alg })
          ≡ ok key)))

good-Found : Found (codes "good") ann
unfolding key_for mcp_reverse_proxy.Auth.Verify.key_of_head static_key
    mcp_reverse_proxy.Auth.Verify.key_of_issuer mcp_reverse_proxy.Auth.Verify.find_key
    mcp_reverse_proxy.Auth.Verify.or_no_kid mcp_reverse_proxy.Prelude.Maps.lookup
good-Found = (some (codes "k1"), (7, (good-Signed, refl)))

found_claims : (c : TokenClaims) → ◌≡◌ {A = Result ParseError TokenClaims} (ok ann) (ok c) → ann ≡ c
found_claims c h = ap (λ r. elim r [ ok x ↦ x | err e ↦ ann ]) h

parse_good-Documented : Documented tokens verifier parse_good
unfolding Documented
parse_good-Documented token c = elim (==-cases token (codes "good")) [
  | inl (spelled, good) ↦ rw spelled (
    (λ h.
        subst (λ t. Found t c) (sym good)
          (subst (Found (codes "good")) (found_claims c h) good-Found)),
    λ (kid, (key, (s, k))). ap ok s.says,
  )
  | inr (other, _) ↦
      rw other
        ((λ h. absurd cc), λ (kid, (key, (s, k))). absurd (unsigned key token other s.signed))
]
  where
    unsigned :
        (key : ℕ) (t : Bytes)
        → (t == codes "good") ≡ false
        → ((key == 7) && (t == codes "good")) ≡ true
        → ⊥
    unsigned key t no_match signed = ground (arith, no_match, signed)

verify_iff_example :
    (verify parse_good verifier (codes "good") ≡ ok (claims_of ann))
    ↔ ((non_empty (codes "good") ≡ true) × Admitted tokens verifier (codes "good") (claims_of ann))
verify_iff_example =
    verify_iff tokens verifier parse_good parse_good-Documented (codes "good") (claims_of ann)
