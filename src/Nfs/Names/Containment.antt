-- ===== src/Nfs/Names/Containment.antt =====
-- What validateNFSSubdir (pkg/maclet/nfs.go) lets through stays beneath the export when it is joined to
-- the mount target.
mod Tests
use maclet.Prelude.{
  text_eq, ℕ, ◌≡◌, refl, sym, ap, subst, ◌∙◌, ◌⊎◌, inl, inr, Bool, true, false, not, ◌||◌, ◌&&◌,
  List, [], ◌∷◌, map, eqb, ◌==◌, text_eq_iff, text_eq_instance, contains, arith, if◌then◌else◌,
  Result, ok, err, Bool-cases,
}
use maclet.Prelude.Text.{Text, codes, split, cons_head, contains_char, trim_space}
use maclet.Prelude.Text.Splitting.{split_cons}
use maclet.Go.Paths.{dot, dot_dot, is_abs, components, render, clean, join_paths}
use maclet.Go.Paths.Laws.{push, join_paths-push, clean-no_parent}
use maclet.Nfs.Names.{NfsError, slashes, has_parent_path, subdir_rule, validate_nfs_subdir}

-- How the parts of a text and its parts after `\` became `/` relate: the head stays unless it has a
-- `\`, and a `..` among the others stays.
abbrev IsFiner : List Text → List Text → Type 0
IsFiner (h ∷ t) (g ∷ u) =
    (contains_char b'\\' h ≡ false → g ≡ h)
    × (contains t dot_dot ≡ true → contains u dot_dot ≡ true)
IsFiner [] u = Unit
IsFiner (h ∷ t) [] = Unit

abbrev slash : ℕ → ℕ
slash c = if eqb c b'\\' then b'/' else c

abbrev parts : ℕ → List Text → List Text
parts c ps = if eqb c b'/' then [] ∷ ps else cons_head c ps

dots_whole : (h : Text) → text_eq h dot_dot ≡ true → contains_char b'\\' h ≡ false
unfolding contains_char
dots_whole h e = rw ((text_eq_iff h dot_dot).0 e) refl

whole-IsFiner :
    (h : Text) (t : List Text) (g : Text) (u : List Text)
    → IsFiner (h ∷ t) (g ∷ u)
    → contains (h ∷ t) dot_dot ≡ true
    → contains (g ∷ u) dot_dot ≡ true
unfolding contains
whole-IsFiner h t g u f k = elim (Bool-cases (text_eq h dot_dot)) [
  | inl e ↦
      let same = f.0 (dots_whole h e) in
      ground (arith, e, subst (λ x. text_eq x dot_dot ≡ true) (sym same) e)
  | inr n ↦ ground (arith, n, k, f.1)
]

step-IsFiner :
    (c : ℕ) (h : Text) (t : List Text) (g : Text) (u : List Text)
    → IsFiner (h ∷ t) (g ∷ u)
    → IsFiner (parts c (h ∷ t)) (parts (slash c) (g ∷ u))
unfolding contains_char contains
step-IsFiner c h t g u f = go (eqb c b'\\') (eqb c b'/') refl refl
  where
    behind : contains t dot_dot ≡ true → contains (g ∷ u) dot_dot ≡ true
    behind k = ground (arith, f.1, k)

    go :
        (b s : Bool)
        → eqb c b'\\' ≡ b
        → eqb c b'/' ≡ s
        → IsFiner (if s then [] ∷ h ∷ t else (c ∷ h) ∷ t) (parts (if b then b'/' else c) (g ∷ u))
    go true true p q = absurd (ground (arith, p, q))
    go true false p q = (λ k. absurd (ground (arith, p, k)), behind)
    go false true p q = rw q (λ k. refl, whole-IsFiner h t g u f)
    go false false p q = rw q (λ k. ap (λ x. c ∷ x) (f.0 (ground (arith, k))), f.1)

split-IsFiner : (s : Text) → IsFiner (split b'/' s) (split b'/' (slashes s))
unfolding split slashes
split-IsFiner [] = (λ h. refl, λ h. h)
split-IsFiner (c ∷ s) = go (split_cons b'/' s) (split_cons b'/' (slashes s)) (split-IsFiner s)
  where
    go :
        ((h : Text) × (t : List Text) × (split b'/' s ≡ h ∷ t))
        → ((g : Text) × (u : List Text) × (split b'/' (slashes s) ≡ g ∷ u))
        → IsFiner (split b'/' s) (split b'/' (slashes s))
        → IsFiner (parts c (split b'/' s)) (parts (slash c) (split b'/' (slashes s)))
    go (h, t, e) (g, u, i) f =
        let f1 = subst (λ ps. IsFiner ps (split b'/' (slashes s))) e f in
        let f2 = subst (λ qs. IsFiner (h ∷ t) qs) i f1 in
        subst (λ ps. IsFiner (parts c ps) (parts (slash c) (split b'/' (slashes s)))) (sym e)
          (subst (λ qs. IsFiner (parts c (h ∷ t)) (parts (slash c) qs)) (sym i)
            (step-IsFiner c h t g u f2))

finer :
    (s : Text)
    → contains (split b'/' s) dot_dot ≡ true
    → contains (split b'/' (slashes s)) dot_dot ≡ true
finer s k =
    let (h, t, e) = split_cons b'/' s in
    let (g, u, i) = split_cons b'/' (slashes s) in
    let f1 = subst (λ ps. IsFiner ps (split b'/' (slashes s))) e (split-IsFiner s) in
    let f2 = subst (λ qs. IsFiner (h ∷ t) qs) i f1 in
    subst (λ qs. contains qs dot_dot ≡ true) (sym i)
      (whole-IsFiner h t g u f2 (subst (λ ps. contains ps dot_dot ≡ true) e k))

-- A text without `..` between separators of either kind has none between slashes.
pub has_parent_path-split :
    (value : Text) → has_parent_path value ≡ false → contains (split b'/' value) dot_dot ≡ false
unfolding has_parent_path
has_parent_path-split value h = ground (arith, h, finer value)

subdir_rule-ok :
    (value sub : Text)
    → subdir_rule value ≡ ok sub
    → (sub ≡ []) ⊎ ((is_abs value ≡ false) × (has_parent_path value ≡ false) × (sub ≡ clean value))
unfolding subdir_rule
subdir_rule-ok value sub h = ground (arith, h)

no_parent :
    (value sub : Text)
    → (sub ≡ []) ⊎ ((is_abs value ≡ false) × (has_parent_path value ≡ false) × (sub ≡ clean value))
    → contains (split b'/' sub) dot_dot ≡ false
unfolding split contains
no_parent value sub (inl e) = rw e refl
no_parent value sub (inr (a, p, e)) =
    ap (λ x. contains (split b'/' x) dot_dot) e
    ∙ clean-no_parent value a (has_parent_path-split value p)

-- A directory below the export that passes the check has no `..`: joined to an absolute target it is
-- the path of the target with further components put below it.
pub validate_nfs_subdir-beneath :
    (raw target sub : Text) (c d : ℕ)
    → validate_nfs_subdir raw ≡ ok (d ∷ sub)
    → is_abs (c ∷ target) ≡ true
    → (contains (split b'/' (d ∷ sub)) dot_dot ≡ false)
      × (join_paths (c ∷ target) (d ∷ sub)
          ≡ render true (push (components (c ∷ target)) (split b'/' (d ∷ sub))))
unfolding validate_nfs_subdir
validate_nfs_subdir-beneath raw target sub c d h a =
    let safe = no_parent (trim_space raw) (d ∷ sub) (subdir_rule-ok (trim_space raw) (d ∷ sub) h) in
    (safe, join_paths-push c d target sub a safe)
