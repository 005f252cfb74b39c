-- ===== src/Base/Equality.antt =====
-- Decidable equality as an interface, with instances for numbers, strings and paths.
use Prim.Native.Nat.{ℕ}
use mathlib.Core.Path.{◌≡◌, refl}
use mathlib.Core.Logic.{◌↔◌}
use mathlib.Core.Bool.{Bool, true, false, not, ◌&&◌, ◌||◌}
use mathlib.Core.List.{List, [], ◌∷◌, ◌++◌}
use native.Mathlib.Omega.{arith}
use kappa.Base.Tests.{nat_beq, nat_beq_iff, if◌then◌else◌}
use kappa.Base.Lists.{All}

pub record Eq {ℓ} (A : Type ℓ) : Type ℓ where
  pub is_same : (x y : A) → Bool
  pub same_iff : (x : A) → (y : A) → (is_same x y ≡ true) ↔ (x ≡ y)

infix 50 ◌==◌
abbrev pub ◌==◌ {ℓ} : {A : Type ℓ} ⦃same : Eq A⦄ → A → A → Bool
◌==◌ ⦃same⦄ x y = same.is_same x y

instance abbrev pub nat_eq : Eq ℕ
nat_eq = record { same_iff = nat_beq_iff; is_same = nat_beq }

module _ {ℓ} {A : Type ℓ} ⦃same : Eq A⦄ where
  unfoldable pub list_beq : List A → List A → Bool
  list_beq [] [] = true
  list_beq [] (y ∷ ys) = false
  list_beq (x ∷ xs) [] = false
  list_beq (x ∷ xs) (y ∷ ys) = x == y && list_beq xs ys

  pub list_beq_iff : (xs ys : List A) → (list_beq xs ys ≡ true) ↔ (xs ≡ ys)
  unfolding list_beq
  list_beq_iff [] [] = ground arith
  list_beq_iff [] (y ∷ ys) = ground arith
  list_beq_iff (x ∷ xs) [] = ground arith
  list_beq_iff (x ∷ xs) (y ∷ ys) = ground (arith, same.same_iff x y, list_beq_iff xs ys)

instance abbrev pub list_eq {ℓ} : {A : Type ℓ} ⦃same : Eq A⦄ → Eq (List A)
list_eq = record { same_iff = list_beq_iff; is_same = list_beq }

module _ {ℓ} {A : Type ℓ} ⦃same : Eq A⦄ where
  pub eq_iff : (a b : A) → ((a == b) ≡ true) ↔ (a ≡ b)
  eq_iff = same.same_iff

  pub eq_refl : (a : A) → (a == a) ≡ true
  eq_refl a = (same.same_iff a a).1 refl

  -- `for _, x := range xs { if x == a { found = true; break } }`
  unfoldable pub contains : A → List A → Bool
  contains a [] = false
  contains a (x ∷ xs) = x == a || contains a xs

  -- `for _, x := range xs { if x != a { kept = append(kept, x) } }`
  unfoldable pub without : A → List A → List A
  without a [] = []
  without a (x ∷ xs) = let rest = without a xs in if not (x == a) then x ∷ rest else rest

  pub contains-append :
      (a : A) (xs ys : List A) → contains a (xs ++ ys) ≡ (contains a xs || contains a ys)
  unfolding contains
  contains-append a [] ys = refl
  contains-append a (x ∷ xs) ys = ground (arith, contains-append a xs ys)

  pub contains-without :
      (a c : A) (xs : List A) → contains c (without a xs) ≡ (not (a == c) && contains c xs)
  unfolding contains without
  contains-without a c [] = ground arith
  contains-without a c (x ∷ xs) =
      ground (arith, contains-without a c xs, eq_iff x a, eq_iff x c, eq_iff a c)

  pub All-without {κ} : (P : A → Type κ) (a : A) (xs : List A) → All P xs → All P (without a xs)
  unfolding without
  All-without P a [] h = tt
  All-without P a (x ∷ xs) (p, h) = ground (arith, All-without P a xs h)
