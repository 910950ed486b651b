-- ===== src/Prelude/Text/Splitting.antt =====
-- Which characters trimming, lower case, cutting and splitting keep.
use Prim.Native.Nat.{ℕ}
use mathlib.Core.Path.{ap, subst, sym, ◌≡◌, refl, ◌∙◌}
use mathlib.Core.Bool.{Bool, true, false, ◌||◌}
use mathlib.Core.Option.{Option, none, some}
use mathlib.Core.List.{List, append_assoc, [], ◌∷◌, ◌++◌}
use native.Mathlib.Omega.{arith}
use maclet.Prelude.Lists.{All}
use maclet.Prelude.Tests.{if◌then◌else◌, eqb}
use maclet.Prelude.Text.{
  join, cons_head, Text, trim_left, trim_right, trim, lower_rune, to_lower, split, cut,
  contains_char,
}

module _ (q : ℕ) where
  module _ (p : ℕ → Bool) (kept : p q ≡ false) where
    contains_char-trim_left : (s : Text) → contains_char q (trim_left p s) ≡ contains_char q s
    unfolding contains_char trim_left
    contains_char-trim_left [] = refl
    contains_char-trim_left (c ∷ s) = grind (arith, contains_char-trim_left s)

    contains_char-trim_right : (s : Text) → contains_char q (trim_right p s) ≡ contains_char q s
    unfolding contains_char trim_right
    contains_char-trim_right [] = refl
    contains_char-trim_right (c ∷ s) = grind (arith, contains_char-trim_right s)

    pub contains_char-trim : (s : Text) → contains_char q (trim p s) ≡ contains_char q s
    unfolding trim
    contains_char-trim s = contains_char-trim_right (trim_left p s) ∙ contains_char-trim_left s

  abbrev pub behind : Option Text → Bool
  behind none = false
  behind (some r) = contains_char q r

  pub contains_char-cut :
      (sep : ℕ) (s : Text)
      → eqb sep q ≡ false
      → contains_char q s ≡ (contains_char q (cut sep s).0 || behind (cut sep s).1)
  unfolding contains_char cut
  contains_char-cut sep [] n = refl
  contains_char-cut sep (c ∷ s) n = ground (arith, contains_char-cut sep s n)

  -- A character that is no upper-case letter stays in the text.
  pub contains_char-to_lower :
      (table : ℕ → ℕ) (s : Text)
      → lower_rune table q ≡ q
      → contains_char q s ≡ true
      → contains_char q (to_lower table s) ≡ true
  unfolding contains_char to_lower
  contains_char-to_lower table [] e h = cc
  contains_char-to_lower table (c ∷ s) e h = grind (arith, contains_char-to_lower table s e)

  pub split-append : (a b : Text) → contains_char q a ≡ false → split q (a ++ q ∷ b) ≡ a ∷ split q b
  unfolding contains_char split
  split-append [] b h = ground arith
  split-append (c ∷ a) b h = ground (arith, split-append a b)

  pub split-whole : (a : Text) → contains_char q a ≡ false → split q a ≡ a ∷ []
  unfolding contains_char split
  split-whole [] h = ground arith
  split-whole (c ∷ a) h = ground (arith, split-whole a)

  pub split_cons : (s : Text) → (h : Text) × (t : List Text) × (split q s ≡ h ∷ t)
  unfolding split
  split_cons [] = ([], [], refl)
  split_cons (c ∷ s) = go (eqb c q) (split_cons s)
    where
      go :
          (b : Bool)
          → (h : Text) × (t : List Text) × (split q s ≡ h ∷ t)
          → (h : Text) × (t : List Text) × ((if b then [] ∷ split q s else cons_head c (split q s))
              ≡ h ∷ t)
      go true (h, t, e) = ([], split q s, refl)
      go false (h, t, e) = (c ∷ h, t, ap (cons_head c) e)

  cons_head-append :
      (c : ℕ) (h : Text) (t xs : List Text)
      → cons_head c ((h ∷ t) ++ xs) ≡ cons_head c (h ∷ t) ++ xs
  cons_head-append c h t xs = ground arith

  -- Splitting at a separator that stands in the text
  pub split-append_sep : (a b : Text) → split q (a ++ q ∷ b) ≡ split q a ++ split q b
  unfolding split
  split-append_sep [] b = ground arith
  split-append_sep (c ∷ a) b = go (split-append_sep a b) (eqb c q)
    where
      below : cons_head c (split q a ++ split q b) ≡ cons_head c (split q a) ++ split q b
      below =
          let (h, t, e) = split_cons a in
          subst (λ l. cons_head c (l ++ split q b) ≡ cons_head c l ++ split q b) (sym e)
            (cons_head-append c h t (split q b))

      go :
          split q (a ++ q ∷ b) ≡ split q a ++ split q b
          → (x : Bool)
          → (if x then [] ∷ split q (a ++ q ∷ b) else cons_head c (split q (a ++ q ∷ b)))
            ≡ (if x then [] ∷ split q a else cons_head c (split q a)) ++ split q b
      go ih true = ap (λ l. [] ∷ l) ih
      go ih false = ap (cons_head c) ih ∙ below

  abbrev pub IsWhole : Text → Type 0
  IsWhole p = contains_char q p ≡ false

  pub split-IsWhole : (s : Text) → All IsWhole (split q s)
  unfolding split contains_char
  split-IsWhole [] = (refl, tt)
  split-IsWhole (c ∷ s) = go (split-IsWhole s) (eqb c q) refl
    where
      extend : eqb c q ≡ false → All IsWhole (split q s) → All IsWhole (cons_head c (split q s))
      extend n all =
          let (h, t, e) = split_cons s in
          let (first, rest) = subst (All IsWhole) e all in
          subst (λ l. All IsWhole (cons_head c l)) (sym e) (ground (arith, n, first), rest)

      go :
          All IsWhole (split q s)
          → (x : Bool) → eqb c q ≡ x
          → All IsWhole (if x then [] ∷ split q s else cons_head c (split q s))
      go all true e = (refl, all)
      go all false e = extend e all

  pub split-join :
      (o : Text) (os : List Text)
      → IsWhole o
      → All IsWhole os
      → split q (join (q ∷ []) (o ∷ os)) ≡ o ∷ os
  unfolding join
  split-join o [] h k = split-whole o h
  split-join o (p ∷ os) h k =
      ap (split q) (append_assoc o (q ∷ []) (join (q ∷ []) (p ∷ os)))
      ∙ split-append o (join (q ∷ []) (p ∷ os)) h
      ∙ ap (λ r. o ∷ r) (split-join p os k.0 k.1)
