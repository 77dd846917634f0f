-- ===== src/Prelude/Eq.antt =====
-- Python's `==` on values that are compared by content, as an interface.
use Prim.Native.Nat.{ℕ}
use mathlib.Core.Path.{◌≡◌}
use mathlib.Core.Logic.{◌↔◌, ◌≢◌}
use mathlib.Core.Bool.{Bool, true, false}
use native.Mathlib.Omega.{arith}
use urllib.Prelude.Tests.{◌=ℕ◌}

pub record BEq {ℓ} (A : Type ℓ) : Type ℓ where
  pub test : A → A → Bool
  pub test_iff : (x y : A) → (test x y ≡ true) ↔ (x ≡ y)

-- The test of the instance in scope.
abbrev pub ◌==◌ {ℓ} : {A : Type ℓ} ⦃e : BEq A⦄ → A → A → Bool
◌==◌ ⦃e⦄ x y = e.test x y

infix 50 ◌==◌
module _ {ℓ} {A : Type ℓ} ⦃e : BEq A⦄ where
  pub ==_refl : (a : A) → (a == a) ≡ true
  ==_refl a = (e.test_iff a a).1 (λ _. a)

  pub ==-eq-true : (a b : A) → (a == b) ≡ true → a ≡ b
  ==-eq-true a b h = (e.test_iff a b).0 h

  pub ==-eq-false : (a b : A) → a ≢ b → (a == b) ≡ false
  ==-eq-false a b h = ground (arith, e.test_iff a b)

  pub ==-ne : (a b : A) → (a == b) ≡ false → a ≢ b
  ==-ne a b h = ground (arith, e.test_iff a b)

pub =ℕ_iff : (a b : ℕ) → ((a =ℕ b) ≡ true) ↔ (a ≡ b)
=ℕ_iff a b = ground arith

instance abbrev pub nat_eq : BEq ℕ
nat_eq = record { test = ◌=ℕ◌; test_iff = =ℕ_iff }
