-- ===== src/Prelude/Text/Words.antt =====
-- Texts without spaces, joined by spaces and taken apart by strings.Fields again; numbers are such texts.
use maclet.Prelude.{
  ℕ, zero, suc, ◌+◌, ◌/◌, ◌%◌, ◌≡◌, refl, ◌∙◌, ap, subst, true, false, List, [], ◌∷◌, ◌++◌, All,
  append_assoc, arith, leb, ◌&&◌, ◌==◌, text_eq_instance,
}
use maclet.Prelude.Text.{
  Text, codes, is_space, pieces, keep_filled, filled, fields, join, has_prefix, decimal_from, itoa,
}

abbrev pub IsInk : ℕ → Type 0
IsInk c = is_space c ≡ false

abbrev pub IsWord : Text → Type 0
IsWord w = ((w == []) ≡ false) × All IsInk w

pieces-word : (w : Text) → All IsInk w → pieces w ≡ w ∷ []
unfolding pieces
pieces-word [] h = refl
pieces-word (c ∷ w) h = rw (h.0, pieces-word w h.1) refl

pieces-append : (w s : Text) → All IsInk w → pieces (w ++ b' ' ∷ s) ≡ w ∷ pieces s
unfolding pieces is_space
pieces-append [] s h = refl
pieces-append (c ∷ w) s h = rw (h.0, pieces-append w s h.1) refl

keep_filled-IsWord : (w : Text) (ps : List Text) → IsWord w → keep_filled w ps ≡ w ∷ ps
keep_filled-IsWord [] ps h = ground (arith, h.0)
keep_filled-IsWord (c ∷ w) ps h = refl

pub fields-join :
    (w : Text) (ws : List Text) → All IsWord (w ∷ ws) → fields (join (codes " ") (w ∷ ws)) ≡ w ∷ ws
unfolding fields join
fields-join w [] h = ap filled (pieces-word w h.0.1) ∙ keep_filled-IsWord w [] h.0
fields-join w (v ∷ ws) h =
    ap fields (append_assoc w (codes " ") (join (codes " ") (v ∷ ws)))
    ∙ ap filled (pieces-append w (join (codes " ") (v ∷ ws)) h.0.1)
    ∙ keep_filled-IsWord w (fields (join (codes " ") (v ∷ ws))) h.0
    ∙ ap (λ r. w ∷ r) (fields-join v ws h.1)

abbrev IsFigure : ℕ → Type 0
IsFigure c = (leb b'0' c && leb c b'9') ≡ true

decimal_from-figures :
    (f n : ℕ) (acc : Text) → All IsFigure acc → All IsFigure (decimal_from f n acc)
unfolding decimal_from
decimal_from-figures zero n acc h = h
decimal_from-figures (suc f) n acc h =
    let digit : IsFigure (b'0' + n % 10) = ground arith in
    ground (arith, digit, h, decimal_from-figures f (n / 10) ((b'0' + n % 10) ∷ acc))

-- The accumulator stands behind something that is a figure too.
decimal_from-filled :
    (f n : ℕ) (acc : Text) → (acc == []) ≡ false → (decimal_from f n acc == []) ≡ false
unfolding decimal_from
decimal_from-filled zero n acc h = h
decimal_from-filled (suc f) n acc h =
    ground (arith, decimal_from-filled f (n / 10) ((b'0' + n % 10) ∷ acc))

figures-IsInk : (s : Text) → All IsFigure s → All IsInk s
unfolding is_space
figures-IsInk [] h = tt
figures-IsInk (c ∷ s) h = (ground (arith, h.0), figures-IsInk s h.1)

started-filled : (f n : ℕ) → (decimal_from (suc f) n [] == []) ≡ false
unfolding decimal_from
started-filled f n = ground (arith, decimal_from-filled f (n / 10) ((b'0' + n % 10) ∷ []))

itoa-filled : (n : ℕ) → (itoa n == []) ≡ false
unfolding itoa
itoa-filled n =
    let e : suc n ≡ n + 1 = omega arith in
    subst (λ m. (decimal_from m n [] == []) ≡ false) e (started-filled n n)

itoa-figures : (n : ℕ) → All IsFigure (itoa n)
unfolding itoa
itoa-figures n = decimal_from-figures (n + 1) n [] tt

pub itoa-IsWord : (n : ℕ) → IsWord (itoa n)
itoa-IsWord n = (itoa-filled n, figures-IsInk (itoa n) (itoa-figures n))

-- A number does not begin like a flag, with or without its sign.
figures-value : (s : Text) → All IsFigure s → has_prefix s (codes "-") ≡ false
unfolding has_prefix
figures-value [] h = refl
figures-value (c ∷ s) h = ground (arith, h.0)

pub itoa-value : (n : ℕ) → has_prefix (itoa n) (codes "-") ≡ false
itoa-value n = figures-value (itoa n) (itoa-figures n)
