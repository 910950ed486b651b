-- ===== src/Go/Paths/Relative.antt =====
-- Relative paths after path.Clean: a `..` stands only at their front.
use maclet.Prelude.{
  ◌≡◌, refl, ap, ◌∙◌, Bool, true, false, ◌||◌, List, [], ◌∷◌, ◌++◌, All, inl, inr, ◌==◌,
  text_eq_instance, contains, arith, Bool-cases,
}
use maclet.Prelude.Text.{Text, codes, split, join, has_prefix, contains_char}
use maclet.Prelude.Text.Splitting.{IsWhole, split-IsWhole}
use maclet.Go.Paths.{dot, dot_dot, is_abs, go_up, resolve, components, render, clean}
use maclet.Go.Paths.Laws.{rendered}
use mathlib.Core.List.{reverse, reverse-cons}

abbrev oldest : List Text → Text
oldest [] = []
oldest (c ∷ []) = c
oldest (c ∷ d ∷ cs) = oldest (d ∷ cs)

-- If there is a `..`, then the oldest component is one.
abbrev IsUpFront : List Text → Type 0
IsUpFront above = contains above dot_dot ≡ true → oldest above ≡ dot_dot

IsUpFront-cons :
    (c : Text) (above : List Text)
    → (c == dot_dot) ≡ false
    → IsUpFront above
    → IsUpFront (c ∷ above)
unfolding contains
IsUpFront-cons c [] n s h = absurd (ground (arith, n, h))
IsUpFront-cons c (d ∷ ds) n s h = s (ground (arith, n, h))

IsUpFront-tail : (c : Text) (above : List Text) → IsUpFront (c ∷ above) → IsUpFront above
unfolding contains
IsUpFront-tail c [] s h = absurd (ground (arith, h))
IsUpFront-tail c (d ∷ ds) s h = s (ground (arith, h))

IsUpFront-go_up : (above : List Text) → IsUpFront above → IsUpFront (go_up false above)
unfolding go_up contains
IsUpFront-go_up [] s = λ h. refl
IsUpFront-go_up (c ∷ above) s = elim (Bool-cases (c == dot_dot)) [
  | inl up ↦ rw up (λ h. s (ground (arith, up)))
  | inr name ↦ rw name (IsUpFront-tail c above s)
]

IsUpFront-resolve : (above cs : List Text) → IsUpFront above → IsUpFront (resolve false above cs)
unfolding resolve
IsUpFront-resolve above [] s = s
IsUpFront-resolve above (c ∷ cs) s = elim (Bool-cases (c == [] || c == dot)) [
  | inl skipped ↦ rw skipped (IsUpFront-resolve above cs s)
  | inr kept ↦ elim (Bool-cases (c == dot_dot)) [
    | inl up ↦ rw (kept, up) (IsUpFront-resolve (go_up false above) cs (IsUpFront-go_up above s))
    | inr name ↦ rw (kept, name) (IsUpFront-resolve (c ∷ above) cs (IsUpFront-cons c above name s))
  ]
]

All-go_up : (above : List Text) → All (IsWhole b'/') above → All (IsWhole b'/') (go_up false above)
unfolding go_up contains_char
All-go_up [] a = (refl, tt)
All-go_up (c ∷ above) a = elim (Bool-cases (c == dot_dot)) [
  | inl up ↦ rw up (refl, a)
  | inr name ↦ rw name a.1
]

All-resolve :
    (above cs : List Text)
    → All (IsWhole b'/') above
    → All (IsWhole b'/') cs
    → All (IsWhole b'/') (resolve false above cs)
unfolding resolve
All-resolve above [] a b = a
All-resolve above (c ∷ cs) a b = elim (Bool-cases (c == [] || c == dot)) [
  | inl skipped ↦ rw skipped (All-resolve above cs a b.1)
  | inr kept ↦ elim (Bool-cases (c == dot_dot)) [
    | inl up ↦ rw (kept, up) (All-resolve (go_up false above) cs (All-go_up above a) b.1)
    | inr name ↦ rw (kept, name) (All-resolve (c ∷ above) cs (b.0, a) b.1)
  ]
]

reverse-oldest :
    (c : Text) (cs : List Text) → (rest : List Text) × (reverse (c ∷ cs) ≡ oldest (c ∷ cs) ∷ rest)
reverse-oldest c [] = ([], refl)
reverse-oldest c (d ∷ ds) =
    let (rest, e) = reverse-oldest d ds in
    (rest ++ c ∷ [], reverse-cons c (d ∷ ds) ∙ ap (λ l. l ++ c ∷ []) e)

-- A path that is `..` or begins with `../`
unfoldable pub goes_up : Text → Bool
unfolding has_prefix
goes_up p = p == dot_dot || has_prefix p (codes "../")

goes_up-join : (rest : List Text) → goes_up (join (codes "/") (dot_dot ∷ rest)) ≡ true
unfolding goes_up join has_prefix
goes_up-join [] = refl
goes_up-join (r ∷ rs) = refl

up_front :
    (cs : List Text) → IsUpFront cs → contains cs dot_dot ≡ true → goes_up (render false cs) ≡ true
unfolding render contains
up_front [] s h = cc
up_front (c ∷ cs) s h =
    let (rest, e) = reverse-oldest c cs in
    ap (λ l. goes_up (join (codes "/") l)) (e ∙ ap (λ d. d ∷ rest) (s h)) ∙ goes_up-join rest

-- A relative path that does not go up once it is clean has no `..` in it then.
pub clean-no_up :
    (p : Text)
    → is_abs p ≡ false
    → goes_up (clean p) ≡ false
    → contains (split b'/' (clean p)) dot_dot ≡ false
unfolding clean components contains
clean-no_up p a n =
    let cs = resolve false [] (split b'/' p) in
    let front = IsUpFront-resolve [] (split b'/' p) (λ h. cc) in
    let whole = All-resolve [] (split b'/' p) tt (split-IsWhole b'/' p) in
    let shape : clean p ≡ render false cs = ap (λ b. render b (resolve b [] (split b'/' p))) a in
    elim (Bool-cases (contains cs dot_dot)) [
      | inl up ↦ absurd (ground (arith, n, ap goes_up shape ∙ up_front cs front up))
      | inr level ↦ ap (λ x. contains (split b'/' x) dot_dot) shape ∙ rendered cs whole level
    ]
