-- ===== src/Prelude/Exec/Keeps.antt =====
-- Invariants of stateful functions, with what holds of the values that they return: one rule for each
-- way to build such a function.
use mathlib.Core.Path.{◌≡◌, refl}
use mathlib.Core.Bool.{Bool, true, false}
use maclet.Prelude.Tests.{if◌then◌else◌}
use maclet.Prelude.Results.{Result, ok, err}
use maclet.Prelude.Exec.{Exec, pure, fail, lift, attempt, continue}
use maclet.Prelude.Exec.Bind.{◌>>=◌, ◌>>◌}

abbrev pub OnOk {ℓ} : {E A : Type 0} → (A → Type ℓ) → Result E A → Type ℓ
OnOk Q (ok a) = Q a
OnOk Q (err e) = Unit

-- `m` keeps `P`, and what it returns satisfies `Q`.
pub record Ensures {E S A : Type 0} (P : S → Type 0) (Q : A → Type 0) (m : Exec E S A)
    : Type 0 where
  pub at : (s : S) → P s → P (m s).1 × OnOk Q (m s).0

abbrev pub Anything : {A : Type 0} → A → Type 0
Anything a = Unit

pub OnOk-any : {E A : Type 0} (r : Result E A) → OnOk {E = E} (Anything {A = A}) r
OnOk-any (ok a) = tt
OnOk-any (err e) = tt

module _ {E S A : Type 0} {P : S → Type 0} {Q : A → Type 0} where
  pub Ensures-pure : (a : A) → Q a → Ensures {E = E} P Q (pure a)
  Ensures-pure a q = record { at = λ s p. (p, q) }

  pub Ensures-fail : (e : E) → Ensures P Q (fail e)
  Ensures-fail e = record { at = λ s p. (p, tt) }

  pub Ensures-read :
      (f : S → A) → ((s : S) → P s → Q (f s)) → Ensures {E = E} P Q (λ s. (ok (f s), s))
  Ensures-read f q = record { at = λ s p. (p, q s p) }

  pub Ensures-step :
      (f : S → A) (g : S → S)
      → ((s : S) → P s → P (g s) × Q (f s))
      → Ensures {E = E} P Q (λ s. (ok (f s), g s))
  Ensures-step f g h = record { at = h }

  pub Ensures-if :
      {b : Bool} {m n : Exec E S A}
      → (b ≡ true → Ensures P Q m)
      → (b ≡ false → Ensures P Q n)
      → Ensures P Q (if b then m else n)
  Ensures-if {b = true} km kn = km refl
  Ensures-if {b = false} km kn = kn refl

module _ {E A : Type 0} {Q R : A → Type 0} (f : (a : A) → Q a → R a) where
  OnOk-weaken : (r : Result E A) → OnOk Q r → OnOk R r
  OnOk-weaken (ok a) q = f a q
  OnOk-weaken (err e) q = tt

  pub Ensures-weaken :
      {S : Type 0} {P : S → Type 0} {m : Exec E S A} → Ensures P Q m → Ensures P R m
  Ensures-weaken {m = m} k = record { at = λ s p. ((k.at s p).0, OnOk-weaken (m s).0 (k.at s p).1) }

pub Ensures-attempt :
    {E S A : Type 0} {P : S → Type 0} {m : Exec E S A}
    → Ensures P Anything m
    → Ensures P Anything (attempt m)
Ensures-attempt k = record { at = λ s p. ((k.at s p).0, tt) }

pub Ensures-lift : {E S A : Type 0} {P : S → Type 0} (r : Result E A) → Ensures P Anything (lift r)
Ensures-lift (ok a) = record { at = λ s p. (p, tt) }
Ensures-lift (err e) = record { at = λ s p. (p, tt) }

module _ {E S A B : Type 0} {P : S → Type 0} {Q : A → Type 0} {R : B → Type 0} where
  pub Ensures-continue :
      (r : Result E A) (f : A → Exec E S B)
      → OnOk Q r
      → ((a : A) → Q a → Ensures P R (f a))
      → Ensures P R (continue r f)
  Ensures-continue (ok a) f q k = k a q
  Ensures-continue (err e) f q k = record { at = λ s p. (p, tt) }

  pub Ensures-bind :
      {m : Exec E S A} {f : A → Exec E S B}
      → Ensures P Q m
      → ((a : A) → Q a → Ensures P R (f a))
      → Ensures P R (m >>= f)
  unfolding ◌>>=◌
  Ensures-bind {m = m} {f = f} km kf = record {
    at =
        λ s p. let (r, s') = m s in let (p', q) = km.at s p in (Ensures-continue r f q kf).at s' p';
  }

  -- A step whose value does not matter for what follows
  pub Ensures-next :
      {m : Exec E S A} {k : Exec E S B} → Ensures P Q m → Ensures P R k → Ensures P R (m >> k)
  Ensures-next km kk = Ensures-bind km (λ a q. kk)
