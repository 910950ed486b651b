-- ===== src/Prelude/Equality.antt =====
-- One equality test for numbers, native texts and lists, as an interface with its law.
use Prim.Native.Nat.{ℕ}
use Prim.Native.String.{String}
use mathlib.Core.Path.{◌≡◌, refl}
use mathlib.Core.Logic.{◌↔◌}
use mathlib.Core.Bool.{Bool, true, false, ◌&&◌, ◌||◌}
use mathlib.Core.List.{List, [], ◌∷◌}
use native.Mathlib.Omega.{arith}
use text.Mathlib.Text.{◌==◌ as str_eq}
use text.Mathlib.TextEquality.{eq_iff}
use maclet.Prelude.Tests.{eqb, eqb_iff}

-- What Go's `==` is on a type: a test, and the proof that it decides equality.
pub record Comparable {ℓ} (A : Type ℓ) : Type ℓ where
  pub same : A → A → Bool
  pub same_iff : (a b : A) → (same a b ≡ true) ↔ (a ≡ b)

infix 50 ◌==◌
abbrev pub ◌==◌ {ℓ} : {A : Type ℓ} ⦃c : Comparable A⦄ → A → A → Bool
◌==◌ ⦃c⦄ = c.same

instance abbrev pub nat_instance : Comparable ℕ
nat_instance = record { same = eqb; same_iff = eqb_iff }

instance abbrev pub string_instance : Comparable String
string_instance = record { same = str_eq; same_iff = eq_iff }

-- Texts that the code walks are lists of code points.
abbrev pub text_eq : List ℕ → List ℕ → Bool
text_eq [] [] = true
text_eq (x ∷ xs) (y ∷ ys) = eqb x y && text_eq xs ys
text_eq [] (y ∷ ys) = false
text_eq (x ∷ xs) [] = false

pub text_eq_iff : (xs ys : List ℕ) → (text_eq xs ys ≡ true) ↔ (xs ≡ ys)
text_eq_iff [] [] = (λ _. refl, λ _. refl)
text_eq_iff [] (y ∷ ys) = (λ h. cc, λ h. cc)
text_eq_iff (x ∷ xs) [] = (λ h. cc, λ h. cc)
text_eq_iff (x ∷ xs) (y ∷ ys) = ground (arith, text_eq_iff xs ys)

instance abbrev pub text_eq_instance : Comparable (List ℕ)
text_eq_instance = record { same = text_eq; same_iff = text_eq_iff }

module _ {ℓ} {A : Type ℓ} ⦃c : Comparable A⦄ where
  pub same_refl : (a : A) → (a == a) ≡ true
  same_refl a = (c.same_iff a a).1 refl

  unfoldable pub list_eq : List A → List A → Bool
  list_eq [] [] = true
  list_eq (x ∷ xs) (y ∷ ys) = (x == y) && list_eq xs ys
  list_eq [] (y ∷ ys) = false
  list_eq (x ∷ xs) [] = false

  unfoldable pub contains : List A → A → Bool
  contains [] a = false
  contains (x ∷ xs) a = (x == a) || contains xs a
