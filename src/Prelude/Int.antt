-- ===== src/Prelude/Int.antt =====
-- Go's signed `int` where the sign matters, and comparisons with a count.
use Prim.Native.Nat.{ℕ, zero, suc, ◌+◌}
use mathlib.Core.Bool.{Bool, true, false}
use mcp_reverse_proxy.Prelude.Tests.{ltb, leb}

-- `negsuc n` is -(n + 1).
pub data ℤ : Type 0 where
  pos : ℕ → ℤ
  negsuc : ℕ → ℤ

abbrev pub pos_part : ℤ → ℕ
pos_part (pos n) = n
pos_part (negsuc n) = 0

-- `v < 0`.
abbrev pub is_negative : ℤ → Bool
is_negative (pos n) = false
is_negative (negsuc n) = true

-- `v == 0`.
abbrev pub is_zero : ℤ → Bool
is_zero (pos zero) = true
is_zero (pos (suc n)) = false
is_zero (negsuc n) = false

-- `a > b`.
abbrev pub gtb : ℤ → ℤ → Bool
gtb (pos a) (pos b) = ltb b a
gtb (pos a) (negsuc b) = true
gtb (negsuc a) (pos b) = false
gtb (negsuc a) (negsuc b) = ltb a b

-- `min(a, b)`.
abbrev pub min_ℤ : ℤ → ℤ → ℤ
min_ℤ a b = elim (gtb a b) [ true ↦ b | false ↦ a ]

-- `n >= z` for a count.
abbrev pub reaches : ℕ → ℤ → Bool
reaches n (pos z) = leb z n
reaches n (negsuc z) = true

-- `now.Sub(last) >= span`, on exact times.
abbrev pub elapsed : ℕ → ℕ → ℤ → Bool
elapsed now last (pos span) = leb (last + span) now
elapsed now last (negsuc span) = leb last (now + suc span)
