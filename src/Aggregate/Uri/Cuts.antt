-- ===== src/Aggregate/Uri/Cuts.antt =====
-- internal/aggregate/uri.go: what `strings.IndexByte` cuts a template into.
use mcp_reverse_proxy.Prelude.{
  ℕ, ◌≡◌, refl, ap, ◌∙◌, inl, inr, false, Option, none, some, [], ◌∷◌, ◌++◌, arith, ◌==◌, nat_eq,
  list_eq, ==-cases, Bytes, contains,
}
use mcp_reverse_proxy.Aggregate.Uri.{cut_at, next_expression}

pub cut_at-absent : (b : ℕ) (s : Bytes) → contains s b ≡ false → cut_at b s ≡ none
unfolding cut_at
cut_at-absent b [] h = refl
cut_at-absent b (c ∷ s) h = ground (arith, cut_at-absent b s)

pub cut_at-append :
    (b : ℕ) (s r : Bytes) → contains s b ≡ false → cut_at b (s ++ (b ∷ r)) ≡ some (s, r)
unfolding cut_at
cut_at-append b [] r h = ground arith
cut_at-append b (c ∷ s) r h = ground (arith, cut_at-append b s r)

-- What `cut_at` returns is what it was given, and the byte is the first of its kind.
abbrev CutOf : ℕ → Bytes → Option (Bytes × Bytes) → Type 0
CutOf b s none = Unit
CutOf b s (some (before, after)) = (s ≡ before ++ (b ∷ after)) × (contains before b ≡ false)

cut_later :
    (b c : ℕ) (s : Bytes) (o : Option (Bytes × Bytes))
    → (c == b) ≡ false
    → CutOf b s o
    → CutOf b (c ∷ s) (elim o [ none ↦ none | some (x, y) ↦ some (c ∷ x, y) ])
cut_later b c s none h _ = tt
cut_later b c s (some (x, y)) h (whole, first) = (ap (λ r. c ∷ r) whole, ground (arith, h, first))

cut_at-CutOf : (b : ℕ) (s : Bytes) → CutOf b s (cut_at b s)
unfolding cut_at
cut_at-CutOf b [] = tt
cut_at-CutOf b (c ∷ s) = elim (==-cases c b) [
  | inl (here, same) ↦ rw here (ap (λ n. n ∷ s) same, refl)
  | inr (later, _) ↦ rw later (cut_later b c s (cut_at b s) later (cut_at-CutOf b s))
]

abbrev pub NextOf : Bytes → Option (Bytes × Bytes × Bytes) → Type 0
NextOf t none = Unit
NextOf t (some (literal, expression, tail)) =
    (t ≡ literal ++ (123 ∷ expression ++ (125 ∷ tail)))
    × (contains literal 123 ≡ false)
    × (contains expression 125 ≡ false)

pub next_expression-NextOf : (t : Bytes) → NextOf t (next_expression t)
unfolding next_expression
next_expression-NextOf t = at_brace (cut_at 123 t) (cut_at-CutOf 123 t)
  where
    at_end :
        (literal after : Bytes) (o : Option (Bytes × Bytes))
        → CutOf 123 t (some (literal, after))
        → CutOf 125 after o
        → NextOf t
            (elim o [ none ↦ none | some (expression, tail) ↦ some (literal, expression, tail) ])
    at_end literal after none _ _ = tt
    at_end literal after (some (x, y)) (whole, no_open) (rest, no_close) =
        (whole ∙ ap (λ r. literal ++ (123 ∷ r)) rest, no_open, no_close)

    at_brace :
        (o : Option (Bytes × Bytes))
        → CutOf 123 t o
        → NextOf t (elim o [
          | none ↦ none
          | some (literal, after) ↦ elim (cut_at 125 after) [
            | none ↦ none
            | some (expression, tail) ↦ some (literal, expression, tail)
          ]
        ])
    at_brace none _ = tt
    at_brace (some (literal, after)) cut =
        at_end literal after (cut_at 125 after) cut (cut_at-CutOf 125 after)
