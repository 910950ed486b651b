-- ===== src/Prelude/Text/Trimming.antt =====
-- What trimming leaves: characters at the ends that are not trimmed, and no others than before.
use maclet.Prelude.{ℕ, suc, ◌≤◌, ◌≡◌, Bool, true, false, [], ◌∷◌, All, length, take, arith}
use maclet.Prelude.Text.{Text, trim_left, trim_right, keep_left}

-- The first character, if there is one, does not satisfy the test.
abbrev pub IsOpenLeft : (ℕ → Bool) → Text → Type 0
IsOpenLeft p [] = Unit
IsOpenLeft p (c ∷ s) = p c ≡ false

abbrev pub IsOpenRight : (ℕ → Bool) → Text → Type 0
IsOpenRight p [] = Unit
IsOpenRight p (c ∷ []) = p c ≡ false
IsOpenRight p (c ∷ d ∷ s) = IsOpenRight p (d ∷ s)

module _ (p : ℕ → Bool) where
  pub trim_left-IsOpenLeft : (s : Text) → IsOpenLeft p (trim_left p s)
  unfolding trim_left
  trim_left-IsOpenLeft [] = tt
  trim_left-IsOpenLeft (c ∷ s) = ground (arith, trim_left-IsOpenLeft s)

  pub keep_left-IsOpenRight :
      (c : ℕ) (s : Text) → IsOpenRight p s → IsOpenRight p (keep_left (p c) c s)
  keep_left-IsOpenRight c [] h = ground arith
  keep_left-IsOpenRight c (d ∷ s) h = ground (arith, h)

  pub trim_right-IsOpenRight : (s : Text) → IsOpenRight p (trim_right p s)
  unfolding trim_right
  trim_right-IsOpenRight [] = tt
  trim_right-IsOpenRight (c ∷ s) =
      keep_left-IsOpenRight c (trim_right p s) (trim_right-IsOpenRight s)

  pub keep_left-IsOpenLeft :
      (b : Bool) (c : ℕ) (s : Text) → p c ≡ false → IsOpenLeft p (keep_left b c s)
  keep_left-IsOpenLeft true c [] h = tt
  keep_left-IsOpenLeft false c [] h = h
  keep_left-IsOpenLeft b c (d ∷ s) h = h

  pub trim_right-IsOpenLeft : (s : Text) → IsOpenLeft p s → IsOpenLeft p (trim_right p s)
  unfolding trim_right
  trim_right-IsOpenLeft [] h = tt
  trim_right-IsOpenLeft (c ∷ s) h = keep_left-IsOpenLeft (p c) c (trim_right p s) h

  pub take-IsOpenLeft : (n : ℕ) (s : Text) → IsOpenLeft p s → IsOpenLeft p (take (suc n) s)
  take-IsOpenLeft n [] h = tt
  take-IsOpenLeft n (c ∷ s) h = h

  pub keep_left-length : (b : Bool) (c : ℕ) (s : Text) → length (keep_left b c s) ≤ suc (length s)
  keep_left-length true c [] = omega arith
  keep_left-length false c [] = omega arith
  keep_left-length b c (d ∷ s) = omega arith

  pub trim_right-length : (s : Text) → length (trim_right p s) ≤ length s
  unfolding trim_right
  trim_right-length [] = omega arith
  trim_right-length (c ∷ s) =
      omega (arith, trim_right-length s, keep_left-length (p c) c (trim_right p s))

module _ (p : ℕ → Bool) (Q : ℕ → Type 0) where
  pub All-trim_left : (s : Text) → All Q s → All Q (trim_left p s)
  unfolding trim_left
  All-trim_left [] h = tt
  All-trim_left (c ∷ s) h = ground (arith, All-trim_left s)

  pub All-keep_left : (b : Bool) (c : ℕ) (s : Text) → Q c → All Q s → All Q (keep_left b c s)
  All-keep_left true c [] h k = tt
  All-keep_left false c [] h k = (h, tt)
  All-keep_left b c (d ∷ s) h k = (h, k)

  pub All-trim_right : (s : Text) → All Q s → All Q (trim_right p s)
  unfolding trim_right
  All-trim_right [] h = tt
  All-trim_right (c ∷ s) h = All-keep_left (p c) c (trim_right p s) h.0 (All-trim_right s h.1)
