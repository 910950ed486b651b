-- ===== src/Go/Paths/Laws.antt =====
-- Paths without `..`: cleaning and joining them keeps every component below.
use maclet.Prelude.{
  ℕ, ◌≡◌, refl, sym, ap, subst, ◌∙◌, Bool, true, false, ◌||◌, List, [], ◌∷◌, ◌++◌, All, All-reverse,
  ◌==◌, text_eq_instance, contains, arith, if◌then◌else◌,
}
use maclet.Prelude.Text.{Text, codes, split, join}
use maclet.Prelude.Text.Splitting.{IsWhole, split-append_sep, split-IsWhole, split-join}
use maclet.Go.Paths.{dot, dot_dot, is_abs, go_up, resolve, components, render, clean, join_paths}
use mathlib.Core.List.{reverse, reverse-cons}

-- The components that a path without `..` puts on top of those so far
abbrev pub push : List Text → List Text → List Text
push above [] = above
push above (c ∷ cs) = if c == [] || c == dot then push above cs else push (c ∷ above) cs

resolve-push :
    (rooted : Bool) (above cs : List Text)
    → contains cs dot_dot ≡ false
    → resolve rooted above cs ≡ push above cs
unfolding resolve contains
resolve-push rooted above [] h = refl
resolve-push rooted above (c ∷ cs) h =
    ground (arith, resolve-push rooted above cs, resolve-push rooted (c ∷ above) cs)

pub contains-push :
    (above cs : List Text) (d : Text)
    → contains cs d ≡ false
    → contains above d ≡ false
    → contains (push above cs) d ≡ false
unfolding contains
contains-push above [] d h k = k
contains-push above (c ∷ cs) d h k =
    ground (arith, contains-push above cs d, contains-push (c ∷ above) cs d)

resolve-append :
    (rooted : Bool) (above xs ys : List Text)
    → resolve rooted above (xs ++ ys) ≡ resolve rooted (resolve rooted above xs) ys
unfolding resolve
resolve-append rooted above [] ys = refl
resolve-append rooted above (x ∷ xs) ys = ground (
  arith,
  resolve-append rooted above xs ys,
  resolve-append rooted (go_up rooted above) xs ys,
  resolve-append rooted (x ∷ above) xs ys,
)

components-push :
    (c : ℕ) (p q : Text)
    → contains (split b'/' q) dot_dot ≡ false
    → components (c ∷ (p ++ b'/' ∷ q)) ≡ push (components (c ∷ p)) (split b'/' q)
unfolding components is_abs
components-push c p q n =
    ap (resolve (is_abs (c ∷ p)) []) (split-append_sep b'/' (c ∷ p) q)
    ∙ resolve-append (is_abs (c ∷ p)) [] (split b'/' (c ∷ p)) (split b'/' q)
    ∙ resolve-push (is_abs (c ∷ p)) (components (c ∷ p)) (split b'/' q) n

-- A path put below another one that starts at the root
pub join_paths-push :
    (c d : ℕ) (p q : Text)
    → is_abs (c ∷ p) ≡ true
    → contains (split b'/' (d ∷ q)) dot_dot ≡ false
    → join_paths (c ∷ p) (d ∷ q) ≡ render true (push (components (c ∷ p)) (split b'/' (d ∷ q)))
unfolding join_paths clean is_abs
join_paths-push c d p q a n =
    ap (render (is_abs (c ∷ p))) (components-push c p (d ∷ q) n)
    ∙ ap (λ b. render b (push (components (c ∷ p)) (split b'/' (d ∷ q)))) a

All-push :
    (above cs : List Text)
    → All (IsWhole b'/') above
    → All (IsWhole b'/') cs
    → All (IsWhole b'/') (push above cs)
All-push above [] h k = h
All-push above (c ∷ cs) h k =
    ground (arith, All-push above cs h k.1, All-push (c ∷ above) cs (k.0, h) k.1)

contains-append :
    (xs ys : List Text) (d : Text) → contains (xs ++ ys) d ≡ (contains xs d || contains ys d)
unfolding contains
contains-append [] ys d = refl
contains-append (x ∷ xs) ys d = ground (arith, contains-append xs ys d)

contains-reverse : (cs : List Text) (d : Text) → contains (reverse cs) d ≡ contains cs d
unfolding contains
contains-reverse [] d = refl
contains-reverse (c ∷ cs) d =
    ap (λ l. contains l d) (reverse-cons c cs)
    ∙ contains-append (reverse cs) (c ∷ []) d
    ∙ ground (arith, contains-reverse cs d)

split-joined :
    (cs : List Text)
    → All (IsWhole b'/') cs
    → contains cs dot_dot ≡ false
    → contains (split b'/' (join (codes "/") cs)) dot_dot ≡ false
unfolding join split contains
split-joined [] h k = refl
split-joined (c ∷ cs) h k = ap (λ l. contains l dot_dot) (split-join b'/' c cs h.0 h.1) ∙ k

no_member : (d : Text) → contains [] d ≡ false
unfolding contains
no_member d = refl

pub rendered :
    (cs : List Text)
    → All (IsWhole b'/') cs
    → contains cs dot_dot ≡ false
    → contains (split b'/' (render false cs)) dot_dot ≡ false
unfolding render split contains
rendered [] h k = refl
rendered (c ∷ cs) h k =
    split-joined (reverse (c ∷ cs)) (All-reverse (IsWhole b'/') (c ∷ cs) h)
      (contains-reverse (c ∷ cs) dot_dot ∙ k)

-- Cleaning brings no `..` into a relative path that has none.
pub clean-no_parent :
    (p : Text)
    → is_abs p ≡ false
    → contains (split b'/' p) dot_dot ≡ false
    → contains (split b'/' (clean p)) dot_dot ≡ false
unfolding clean components
clean-no_parent p a n =
    subst (λ b. contains (split b'/' (render b (resolve b [] (split b'/' p)))) dot_dot ≡ false)
      (sym a)
      (subst (λ cs. contains (split b'/' (render false cs)) dot_dot ≡ false)
        (sym (resolve-push false [] (split b'/' p) n))
        (rendered (push [] (split b'/' p)) (All-push [] (split b'/' p) tt (split-IsWhole b'/' p))
          (contains-push [] (split b'/' p) dot_dot n (no_member dot_dot))))
