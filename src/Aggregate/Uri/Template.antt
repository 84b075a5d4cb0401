-- ===== src/Aggregate/Uri/Template.antt =====
-- internal/aggregate/uri.go: expanding a wrapped template.
use mcp_reverse_proxy.Prelude.{
  ℕ, zero, suc, ◌+◌, ◌*◌, ◌/◌, ◌%◌, ◌<◌, ◌≡◌, refl, ap, ◌∙◌, subst, inl, inr, true, false, Option,
  none, some, [], ◌∷◌, ◌++◌, arith, Bool-cases, ◌==◌, nat_eq, list_eq, Bytes, length, length-append,
  All, All-split, contains,
}
use mcp_reverse_proxy.Aggregate.Uri.{
  escape, path_unescape, next_expression, template_step, template_body, unreserved, hex_digit, pair,
  after_byte, unhex, between,
}
use mcp_reverse_proxy.Aggregate.Uri.Cuts.{
  cut_at-absent, cut_at-append, NextOf, next_expression-NextOf,
}
use mcp_reverse_proxy.Aggregate.Uri.RoundTrip.{
  path_unescape-escape, path_unescape-percent, path_unescape-plain, unhex-hex_digit,
  unreserved-plain,
}

pub expand_step : (Bytes → Bytes) → Bytes → Option (Bytes × Bytes × Bytes) → (Bytes → Bytes) → Bytes
expand_step v rest none loop = rest
expand_step v rest (some (literal, expression, tail)) loop = literal ++ (v expression ++ loop tail)

-- A template with its expressions replaced, as RFC 6570 has a client do it.
unfoldable pub expand : (Bytes → Bytes) → ℕ → Bytes → Bytes
unfolding expand_step
expand v zero rest = []
expand v (suc fuel) rest = expand_step v rest (next_expression rest) (expand v fuel)

prefixed : Bytes → Option Bytes → Option Bytes
prefixed a none = none
prefixed a (some b) = some (a ++ b)

-- The strings that `url.PathUnescape` accepts, with what it makes of them.
pub data Unescapes : Bytes → Bytes → Type 0 where
  ends : Unescapes [] []
  plain : {c : ℕ} {s t : Bytes} → (c == 37) ≡ false → Unescapes s t → Unescapes (c ∷ s) (c ∷ t)
  coded :
      {d e a b : ℕ} {s t : Bytes}
      → unhex d ≡ some a
      → unhex e ≡ some b
      → Unescapes s t
      → Unescapes (37 ∷ d ∷ e ∷ s) ((a * 16 + b) ∷ t)

after_byte-prefixed :
    (c : ℕ) (t : Bytes) (o : Option Bytes) → after_byte c (prefixed t o) ≡ prefixed (c ∷ t) o
unfolding after_byte prefixed
after_byte-prefixed c t none = refl
after_byte-prefixed c t (some u) = refl

pair-prefixed :
    (a b : ℕ) (t : Bytes) (o : Option Bytes)
    → pair (some a) (some b) (prefixed t o) ≡ prefixed ((a * 16 + b) ∷ t) o
unfolding pair prefixed
pair-prefixed a b t none = refl
pair-prefixed a b t (some u) = refl

prefixed-nil : (o : Option Bytes) → o ≡ prefixed [] o
unfolding prefixed
prefixed-nil none = refl
prefixed-nil (some u) = refl

-- What is unescaped in full is unescaped alike before anything else.
Unescapes-append :
    {s t : Bytes}
    → Unescapes s t
    → (r : Bytes) → path_unescape (s ++ r) ≡ prefixed t (path_unescape r)
Unescapes-append ends r = prefixed-nil (path_unescape r)
Unescapes-append (plain {c = c} {s = s} {t = t} h u) r =
    path_unescape-plain c (s ++ r) h
    ∙ ap (after_byte c) (Unescapes-append u r)
    ∙ after_byte-prefixed c t (path_unescape r)
Unescapes-append (coded {d = d} {e = e} {a = a} {b = b} {s = s} {t = t} hd he u) r =
    path_unescape-percent d e (s ++ r)
    ∙ rw (hd, he, Unescapes-append u r) (pair-prefixed a b t (path_unescape r))

hex_digit-no_brace : (n : ℕ) → n < 16 → (hex_digit n == 123) ≡ false
unfolding hex_digit
hex_digit-no_brace n h = ground arith

unreserved-no_brace : (c : ℕ) → unreserved c ≡ true → (c == 123) ≡ false
unfolding unreserved between
unreserved-no_brace c h = ground arith

escape-no_brace : (s : Bytes) → All (λ c. c < 256) s → contains (escape s) 123 ≡ false
unfolding escape
escape-no_brace [] _ = refl
escape-no_brace (c ∷ s) (small, rest) = elim (Bool-cases (unreserved c)) [
  | inl safe ↦ rw (safe, unreserved-no_brace c safe) (escape-no_brace s rest)
  | inr shut ↦
      rw
        (shut, hex_digit-no_brace (c / 16) (omega arith), hex_digit-no_brace (c % 16) (omega arith))
        (escape-no_brace s rest)
]

escape-Unescapes : (s : Bytes) → All (λ c. c < 256) s → Unescapes (escape s) s
unfolding escape
escape-Unescapes [] _ = ends
escape-Unescapes (c ∷ s) (small, rest) = elim (Bool-cases (unreserved c)) [
  | inl safe ↦ rw safe (plain (unreserved-plain c safe) (escape-Unescapes s rest))
  | inr shut ↦ rw shut (
      subst (λ n. Unescapes (37 ∷ hex_digit (c / 16) ∷ hex_digit (c % 16) ∷ escape s) (n ∷ s))
        (omega arith)
        (coded (unhex-hex_digit (c / 16) (omega arith)) (unhex-hex_digit (c % 16) (omega arith))
          (escape-Unescapes s rest)))
]

next_expression-wrapped :
    (literal expression rest : Bytes)
    → All (λ c. c < 256) literal
    → contains expression 125 ≡ false
    → next_expression (escape literal ++ (123 ∷ (expression ++ (125 ∷ rest))))
      ≡ some (escape literal, expression, rest)
unfolding next_expression
next_expression-wrapped literal expression rest bytes h =
    rw
      (
        next_expression,
        cut_at-append 123 (escape literal) (expression ++ (125 ∷ rest))
            (escape-no_brace literal bytes),
        cut_at-append 125 expression rest h,
      )
      refl

next_expression-escape : (t : Bytes) → All (λ c. c < 256) t → next_expression (escape t) ≡ none
unfolding next_expression
next_expression-escape t bytes =
    rw (next_expression, cut_at-absent 123 (escape t) (escape-no_brace t bytes)) refl

-- One round of the loop and of the expansion, with what holds of the rounds that follow.
round-Unescapes :
    (v u : Bytes → Bytes) (fuel : ℕ) (t : Bytes) (o : Option (Bytes × Bytes × Bytes))
    → ((e : Bytes) → Unescapes (v e) (u e))
    → All (λ c. c < 256) t
    → ((s : Bytes)
        → All (λ c. c < 256) s
        → path_unescape (expand v fuel (template_body fuel s)) ≡ some (expand u fuel s))
    → NextOf t o
    → path_unescape (
        expand_step v
          (template_step t o (template_body fuel))
          (next_expression (template_step t o (template_body fuel)))
          (expand v fuel))
      ≡ some (expand_step u t o (expand u fuel))
unfolding template_step expand_step prefixed
round-Unescapes v u fuel t none values bytes later _ =
    rw (next_expression-escape t bytes) (path_unescape-escape t bytes)
round-Unescapes v u fuel t (some (literal, x, tail)) values bytes later (whole, _, closed) =
    let (l_bytes, rest) =
      All-split (λ c. c < 256) literal (123 ∷ (x ++ (125 ∷ tail)))
        (subst (All (λ c. c < 256)) whole bytes) in
    let (_, t_bytes) = All-split (λ c. c < 256) (123 ∷ x) (125 ∷ tail) rest in
    let wrapped = template_body fuel tail in
    rw (next_expression-wrapped literal x wrapped l_bytes closed) (
      Unescapes-append (escape-Unescapes literal l_bytes) (v x ++ expand v fuel wrapped)
      ∙ ap (prefixed literal) (
          Unescapes-append (values x) (expand v fuel wrapped)
          ∙ ap (prefixed (u x)) (later tail t_bytes.1)))

-- Expanding a wrapped template and unescaping what follows the backend's identifier gives what the
-- template itself expands to with the value of each expression unescaped.
pub expand-template_body :
    (v u : Bytes → Bytes) (fuel : ℕ) (t : Bytes)
    → ((e : Bytes) → Unescapes (v e) (u e))
    → All (λ c. c < 256) t
    → path_unescape (expand v fuel (template_body fuel t)) ≡ some (expand u fuel t)
unfolding expand template_body
expand-template_body v u zero t values bytes = unfold path_unescape in refl
expand-template_body v u (suc fuel) t values bytes =
    round-Unescapes v u fuel t (next_expression t) values bytes
      (λ s. expand-template_body v u fuel s values) (next_expression-NextOf t)

round_enough :
    (n m : ℕ) (t : Bytes) (o : Option (Bytes × Bytes × Bytes))
    → NextOf t o
    → length t < suc n
    → length t < suc m
    → ((s : Bytes) → length s < n → length s < m → template_body n s ≡ template_body m s)
    → template_step t o (template_body n) ≡ template_step t o (template_body m)
unfolding template_step
round_enough n m t none _ _ _ _ = refl
round_enough n m t (some (literal, x, tail)) (whole, _, _) hn hm later =
    let sizes = ap length whole in
    let parts = length-append literal (123 ∷ (x ++ (125 ∷ tail))) in
    let inner = length-append x (125 ∷ tail) in
    ap (λ r. escape literal ++ (123 ∷ (x ++ (125 ∷ r))))
      (later tail (omega (arith, sizes, parts, inner)) (omega (arith, sizes, parts, inner)))

-- The loop of `WrapURITemplate` ends: with more rounds than the template has bytes, the number of
-- rounds does not matter.
pub template_body_enough :
    (n m : ℕ) (t : Bytes) → length t < n → length t < m → template_body n t ≡ template_body m t
unfolding template_body
template_body_enough zero m t hn hm = absurd (omega arith)
template_body_enough (suc n) zero t hn hm = absurd (omega arith)
template_body_enough (suc n) (suc m) t hn hm =
    round_enough n m t (next_expression t) (next_expression-NextOf t) hn hm
      (λ s. template_body_enough n m s)
