-- ===== src/Auth/Words.antt =====
-- What internal/auth uses of the `strings` package: `TrimSpace`, `Fields` and `EqualFold`.
use mcp_reverse_proxy.Prelude.{
  ℕ, zero, suc, ◌+◌, Bool, false, ◌&&◌, ◌||◌, Option, none, some, List, [], ◌∷◌, ◌++◌, map, leb,
  if◌then◌else◌, ◌==◌, nat_eq, list_eq, Bytes, length, contains,
}

-- The UTF-8 codes of the white space that is not ASCII.
abbrev wide_spaces : List Bytes
wide_spaces =
    (194 ∷ 133 ∷ [])
    ∷ (194 ∷ 160 ∷ [])
    ∷ (225 ∷ 154 ∷ 128 ∷ [])
    ∷ (226 ∷ 128 ∷ 168 ∷ [])
    ∷ (226 ∷ 128 ∷ 169 ∷ [])
    ∷ (226 ∷ 128 ∷ 175 ∷ [])
    ∷ (226 ∷ 129 ∷ 159 ∷ [])
    ∷ (227 ∷ 128 ∷ 128 ∷ [])
    ∷ []

-- U+2000 to U+200A.
abbrev is_quad : Bytes → Bool
is_quad (a ∷ b ∷ c ∷ []) = (a == 226) && ((b == 128) && (leb 128 c && leb c 138))
is_quad s = false

-- `unicode.IsSpace`, on the code of one character.
unfoldable pub is_space : Bytes → Bool
is_space [] = false
is_space (c ∷ []) = (c == 32) || (leb 9 c && leb c 13)
is_space (a ∷ b ∷ s) = is_quad (a ∷ b ∷ s) || contains wide_spaces (a ∷ b ∷ s)

-- The text after one white space character at its start. `mirrored` says that the text is
-- reversed, and its characters' codes with it.
unfoldable pub after_space : (Bytes → Bytes) → Bytes → Option Bytes
after_space spelled [] = none
after_space spelled (a ∷ []) = if is_space (a ∷ []) then some [] else none
after_space spelled (a ∷ b ∷ []) =
    if is_space (a ∷ [])
    then some (b ∷ [])
    else if is_space (spelled (a ∷ b ∷ []))
    then some []
    else none
after_space spelled (a ∷ b ∷ c ∷ s) =
    if is_space (a ∷ [])
    then some (b ∷ c ∷ s)
    else if is_space (spelled (a ∷ b ∷ []))
    then some (c ∷ s)
    else if is_space (spelled (a ∷ b ∷ c ∷ []))
    then some s
    else none

strip : (Bytes → Bytes) → ℕ → Bytes → Option Bytes → Bytes
strip spelled zero s o = s
strip spelled (suc fuel) s none = s
strip spelled (suc fuel) s (some rest) = strip spelled fuel rest (after_space spelled rest)

unfoldable pub backwards : Bytes → Bytes
backwards [] = []
backwards (c ∷ s) = backwards s ++ (c ∷ [])

-- Without the white space at the start: a round takes a byte at least.
unfoldable pub trim_start : (Bytes → Bytes) → Bytes → Bytes
unfolding strip
trim_start spelled s = strip spelled (length s) s (after_space spelled s)

-- `strings.TrimSpace`.
unfoldable pub trim_space : Bytes → Bytes
trim_space s = backwards (trim_start backwards (backwards (trim_start (λ c. c) s)))

emit : Bytes → List Bytes → List Bytes
emit [] words = words
emit (c ∷ w) words = (c ∷ w) ∷ words

split_words : ℕ → Bytes → Bytes → Option Bytes → List Bytes
unfolding emit
split_words zero word s o = emit word []
split_words (suc fuel) word s (some rest) =
    emit word (split_words fuel [] rest (after_space (λ c. c) rest))
split_words (suc fuel) word [] none = emit word []
split_words (suc fuel) word (c ∷ s) none =
    split_words fuel (word ++ (c ∷ [])) s (after_space (λ c. c) s)

-- `strings.Fields`: a round takes a byte at least.
unfoldable pub fields : Bytes → List Bytes
unfolding split_words emit
fields s = split_words (suc (length s)) [] s (after_space (λ c. c) s)

unfoldable pub to_lower : ℕ → ℕ
to_lower c = if leb 65 c && leb c 90 then c + 32 else c

-- `strings.EqualFold` with a text of ASCII letters other than k and s, which alone have case forms
-- outside ASCII.
unfoldable pub equal_fold : Bytes → Bytes → Bool
equal_fold s t = map to_lower s == map to_lower t
