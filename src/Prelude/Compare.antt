-- ===== src/Prelude/Compare.antt =====
-- Comparison by content of options, lists and pairs.
use mathlib.Core.Path.{◌≡◌, refl, ap}
use mathlib.Core.Logic.{◌↔◌}
use mathlib.Core.Bool.{Bool, true, false, ◌&&◌}
use mathlib.Core.Option.{Option, none, some}
use mathlib.Core.List.{List, [], ◌∷◌}
use native.Mathlib.Omega.{arith}
use urllib.Prelude.Eq.{BEq, ◌==◌, ==_refl, ==-eq-true}

module _ {A : Type 0} ⦃e : BEq A⦄ where
  abbrev pub option_beq : Option A → Option A → Bool
  option_beq none none = true
  option_beq none (some b) = false
  option_beq (some a) none = false
  option_beq (some a) (some b) = a == b

  pub option_beq_iff : (o p : Option A) → (option_beq o p ≡ true) ↔ (o ≡ p)
  option_beq_iff none none = (λ h. refl, λ h. refl)
  option_beq_iff none (some b) = (λ h. cc h, λ h. cc h)
  option_beq_iff (some a) none = (λ h. cc h, λ h. cc h)
  option_beq_iff (some a) (some b) =
      (λ h. ap some (==-eq-true a b h), λ h. ground (arith, h, ==_refl a))

  instance abbrev pub option_eq : BEq (Option A)
  option_eq = record { test = option_beq; test_iff = option_beq_iff }

  abbrev pub list_beq : List A → List A → Bool
  list_beq [] [] = true
  list_beq [] (b ∷ t) = false
  list_beq (a ∷ s) [] = false
  list_beq (a ∷ s) (b ∷ t) = a == b && list_beq s t

  list_beq-eq : (s t : List A) → list_beq s t ≡ true → s ≡ t
  list_beq-eq [] [] h = refl
  list_beq-eq [] (b ∷ t) h = cc
  list_beq-eq (a ∷ s) [] h = cc
  list_beq-eq (a ∷ s) (b ∷ t) h = ground (arith, list_beq-eq s t, ==-eq-true a b)

  list_beq_refl : (s : List A) → list_beq s s ≡ true
  list_beq_refl [] = refl
  list_beq_refl (a ∷ s) = ground (arith, list_beq_refl s, ==_refl a)

  pub list_beq_iff : (s t : List A) → (list_beq s t ≡ true) ↔ (s ≡ t)
  list_beq_iff s t = (list_beq-eq s t, λ p. rw p (list_beq_refl t))

instance abbrev pub options_eq : {A : Type 0} ⦃e : BEq A⦄ → BEq (List (Option A))
options_eq {A} = record { test = list_beq {A = Option A}; test_iff = list_beq_iff {A = Option A} }

module _ {A B : Type 0} ⦃e : BEq A⦄ ⦃f : BEq B⦄ where
  abbrev pub pair_beq : A × B → A × B → Bool
  pair_beq (a, b) (c, d) = a == c && b == d

  pub pair_beq_iff : (p q : A × B) → (pair_beq p q ≡ true) ↔ (p ≡ q)
  pair_beq_iff (a, b) (c, d) = (
    λ h. ground (arith, h, ==-eq-true a c, ==-eq-true b d),
    λ h. ground (arith, h, ==_refl a, ==_refl b),
  )

  instance abbrev pub pair_eq : BEq (A × B)
  pair_eq = record { test = pair_beq; test_iff = pair_beq_iff }
