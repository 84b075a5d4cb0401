-- ===== src/Auth/Claims.antt =====
-- internal/auth/auth.go: `Subject`, `Subject.Key` and `Claims.HasScope`.
use mcp_reverse_proxy.Prelude.{
  ◌≡◌, ◌≢◌, Bool, not, ◌&&◌, List, [], ◌∷◌, ◌++◌, arith, ◌==◌, nat_eq, list_eq, Bytes, is_empty,
  any, All,
}

pub record Subject : Type 0 where
  pub issuer : Bytes
  pub sub : Bytes

-- The two parts with a NUL byte between them.
unfoldable pub subject_key : Subject → Bytes
subject_key s = s.issuer ++ 0 ∷ s.sub

-- `Subject.Valid`.
unfoldable pub is_identified : Subject → Bool
is_identified s = not (is_empty s.issuer) && not (is_empty s.sub)

pub record Claims : Type 0 where
  pub subject : Subject
  pub scopes : List Bytes

unfoldable pub has_scope : Claims → Bytes → Bool
has_scope c scope = any (λ s. s == scope) c.scopes

abbrev pub LacksNul : Bytes → Type 0
LacksNul = All (λ b. b ≢ 0)

join_injective :
    (a b x y : Bytes) → LacksNul a → LacksNul b → a ++ 0 ∷ x ≡ b ++ 0 ∷ y → (a ≡ b) × (x ≡ y)
join_injective [] [] x y _ _ e = ground arith
join_injective [] (c ∷ b) x y _ (hc, _) e = ground arith
join_injective (c ∷ a) [] x y (hc, _) _ e = ground arith
join_injective (c ∷ a) (d ∷ b) x y (_, ha) (_, hb) e = ground (arith, join_injective a b x y ha hb)

-- Two subjects whose issuers hold no NUL byte share a pool key only if they are one subject.
pub subject_key_injective :
    (s t : Subject) → LacksNul s.issuer → LacksNul t.issuer → subject_key s ≡ subject_key t → s ≡ t
unfolding subject_key
subject_key_injective s t hs ht e =
    ground (arith, join_injective s.issuer t.issuer s.sub t.sub hs ht e)
