-- ===== src/Prelude/Equality.antt =====
-- Boolean equality as an interface, with its instances for numbers, lists and pairs.
use Prim.Native.Nat.{ℕ}
use mathlib.Core.Path.{◌≡◌, refl}
use mathlib.Core.Logic.{◌↔◌, ◌⊎◌, ◌≢◌}
use mathlib.Core.Bool.{Bool, true, false, ◌&&◌}
use mathlib.Core.List.{List, [], ◌∷◌}
use native.Mathlib.Omega.{arith}
use mcp_reverse_proxy.Prelude.Tests.{nat_beq, nat_beq_iff, Bool-cases}

-- A test for equality, with the proof that it decides it.
pub record Decides {ℓ} (A : Type ℓ) : Type ℓ where
  pub eqb : A → A → Bool
  pub eqb_iff : (x y : A) → (eqb x y ≡ true) ↔ (x ≡ y)

infix 50 ◌==◌
abbrev pub ◌==◌ {ℓ} : {A : Type ℓ} ⦃e : Decides A⦄ → A → A → Bool
◌==◌ ⦃e⦄ x y = e.eqb x y

instance abbrev pub nat_eq : Decides ℕ
nat_eq = record { eqb = nat_beq; eqb_iff = nat_beq_iff }

module _ {ℓ} {A : Type ℓ} ⦃e : Decides A⦄ where
  abbrev pub list_beq : List A → List A → Bool
  list_beq [] [] = true
  list_beq [] (y ∷ ys) = false
  list_beq (x ∷ xs) [] = false
  list_beq (x ∷ xs) (y ∷ ys) = (x == y) && list_beq xs ys

  pub list_beq_iff : (xs ys : List A) → (list_beq xs ys ≡ true) ↔ (xs ≡ ys)
  list_beq_iff [] [] = (λ _. refl, λ _. refl)
  list_beq_iff [] (y ∷ ys) = (λ h. cc, λ h. cc)
  list_beq_iff (x ∷ xs) [] = (λ h. cc, λ h. cc)
  list_beq_iff (x ∷ xs) (y ∷ ys) = ground (arith, e.eqb_iff x y, list_beq_iff xs ys)

  instance abbrev pub list_eq : Decides (List A)
  list_eq = record { eqb = list_beq; eqb_iff = list_beq_iff }

  pub ==-refl : (a : A) → (a == a) ≡ true
  ==-refl a = (e.eqb_iff a a).1 refl

  -- A split on an equality test that keeps what the test says.
  pub ==-cases : (a b : A) → ((a == b) ≡ true) × (a ≡ b) ⊎ ((a == b) ≡ false) × (a ≢ b)
  ==-cases a b = ground (arith, e.eqb_iff a b, Bool-cases (a == b))

-- A Go string is the list of its bytes.
abbrev pub Bytes : Type 0
Bytes = List ℕ

-- `s == ""`.
unfoldable pub is_empty : Bytes → Bool
is_empty [] = true
is_empty (x ∷ xs) = false
