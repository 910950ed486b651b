-- ===== src/Prelude/Exec/Triples.antt =====
-- What a stateful function that returns a value leaves: a condition on the value and the state, from a
-- condition on the state before.
use mathlib.Core.Path.{◌≡◌, refl}
use mathlib.Core.Bool.{Bool, true, false}
use maclet.Prelude.Tests.{if◌then◌else◌}
use maclet.Prelude.Results.{Result, ok, err}
use maclet.Prelude.Exec.{Exec, pure, fail, lift, continue}
use maclet.Prelude.Exec.Bind.{◌>>=◌}

abbrev pub Holds : {E S A : Type 0} → (A → S → Type 0) → Result E A → S → Type 0
Holds Q (ok a) s = Q a s
Holds Q (err e) s = Unit

-- From a state with `P`, if `m` returns a value, then `Q` holds of it and of the state behind.
pub record Triple {E S A : Type 0} (P : S → Type 0) (Q : A → S → Type 0) (m : Exec E S A)
    : Type 0 where
  pub at : (s : S) → P s → Holds Q (m s).0 (m s).1

module _ {E S A : Type 0} {P : S → Type 0} {Q : A → S → Type 0} where
  pub Triple-pure : (a : A) → ((s : S) → P s → Q a s) → Triple {E = E} P Q (pure a)
  Triple-pure a h = record { at = h }

  pub Triple-fail : (e : E) → Triple P Q (fail e)
  Triple-fail e = record { at = λ s p. tt }

  pub Triple-if :
      {b : Bool} {m n : Exec E S A}
      → (b ≡ true → Triple P Q m)
      → (b ≡ false → Triple P Q n)
      → Triple P Q (if b then m else n)
  Triple-if {b = true} km kn = km refl
  Triple-if {b = false} km kn = kn refl

module _ {E S A B : Type 0} {Q : A → S → Type 0} {R : B → S → Type 0} where
  Triple-continue :
      (r : Result E A) (f : A → Exec E S B) (s : S)
      → Holds Q r s
      → ((a : A) → Triple (Q a) R (f a))
      → Holds R (continue r f s).0 (continue r f s).1
  Triple-continue (ok a) f s q k = (k a).at s q
  Triple-continue (err e) f s q k = tt

module _ {E S A B : Type 0} {P : S → Type 0} {Q : A → S → Type 0} {R : B → S → Type 0} where
  pub Triple-bind :
      {m : Exec E S A} {f : A → Exec E S B}
      → Triple P Q m
      → ((a : A) → Triple (Q a) R (f a))
      → Triple P R (m >>= f)
  unfolding ◌>>=◌
  Triple-bind {m = m} {f = f} km kf = record {
    at = λ s p. Triple-continue (m s).0 f (m s).1 (km.at s p) kf;
  }

module _ {E S A : Type 0} where
  Holds-any : (r : Result E A) (s : S) → Holds (λ a t. Unit {0}) r s
  Holds-any (ok a) s = tt
  Holds-any (err e) s = tt

module _ {E S A : Type 0} {P : S → Type 0} where
  -- Nothing is said of the value and the state.
  pub Triple-any : (m : Exec E S A) → Triple P (λ a s. Unit {0}) m
  Triple-any m = record { at = λ s p. Holds-any (m s).0 (m s).1 }

module _ {E S A : Type 0} {P : Type 0} {Q : A → S → Type 0} {m : Exec E S A} where
  -- A condition that is not on the state
  pub Triple-given : (P → Triple (λ s. Unit {0}) Q m) → Triple (λ s. P) Q m
  Triple-given k = record { at = λ s p. (k p).at s tt }

module _ {E S A : Type 0} {Q : A → S → Type 0} (always : (a : A) (s : S) → Q a s) where
  Holds-always : (r : Result E A) (s : S) → Holds Q r s
  Holds-always (ok a) s = always a s
  Holds-always (err e) s = tt

  -- What holds of each value and state
  pub Triple-always : {P : S → Type 0} (m : Exec E S A) → Triple P Q m
  Triple-always m = record { at = λ s p. Holds-always (m s).0 (m s).1 }

module _ {E S A : Type 0} where
  Holds-lift : (r : Result E A) (s : S) → Holds (λ a t. r ≡ ok a) r s
  Holds-lift (ok a) s = refl
  Holds-lift (err e) s = tt

  pub Triple-lift : {P : S → Type 0} (r : Result E A) → Triple P (λ a s. r ≡ ok a) (lift r)
  Triple-lift r = record { at = λ s p. Holds-lift r s }
