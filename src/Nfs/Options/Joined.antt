-- ===== src/Nfs/Options/Joined.antt =====
-- The options that pass validateNFSMountOptions (pkg/maclet/nfs.go) are what mount_nfs reads: joined
-- with commas, they are taken apart into the same options.
mod Tests
use mathlib.Core.List.{append_assoc}
use maclet.Prelude.{
  ℕ, ◌+◌, ◌-◌, ◌*◌, ◌≡◌, refl, sym, ap, ◌∙◌, Bool, true, false, not, ◌||◌, ◌&&◌, Option, none, some,
  List, [], ◌∷◌, ◌++◌, ◌==◌, text_eq_iff, text_eq_instance, contains, All, eqb, leb, arith,
  if◌then◌else◌, Result, ok, err, Bool-cases, inl, inr, ◌>>◌,
}
use maclet.Prelude.Text.{
  Text, codes, trim_space, is_space, lower_rune, to_lower, cut, contains_char, split, join,
}
use maclet.Prelude.Text.Splitting.{
  IsWhole, split-join, behind, contains_char-trim, contains_char-cut, contains_char-to_lower,
  split-append, split-whole,
}
use maclet.Go.Numbers.{ℤ, pos, negsuc, digits, atoi}
use maclet.Nfs.Names.{NfsError, not_allowed, empty_option, duplicate_option}
use maclet.Nfs.Options.{
  flag_rule, flags, versions, numbers, is_positive_int32, version_rule, number_rule, option_rule,
  option_key, options_from, validate_nfs_mount_options,
}

abbrev comma : ℕ
comma = b','

abbrev none_has_comma : List Text → Bool
none_has_comma [] = true
none_has_comma (k ∷ ks) = not (contains_char comma k) && none_has_comma ks

known-no_comma :
    (ks : List Text) (key : Text)
    → none_has_comma ks ≡ true
    → contains ks key ≡ true
    → contains_char comma key ≡ false
unfolding contains
known-no_comma [] key h k = cc
known-no_comma (x ∷ ks) key h k = ground (arith, text_eq_iff x key, known-no_comma ks key)

digits-fails : (n : ℕ) (s : Text) → contains_char comma s ≡ true → digits n s ≡ none
unfolding digits contains_char
digits-fails n [] h = cc
digits-fails n (c ∷ s) h = ground (arith, digits-fails (n * 10 + (c - b'0')) s)

atoi-fails : (s : Text) → contains_char comma s ≡ true → atoi s ≡ none
unfolding atoi contains_char
atoi-fails [] h = refl
atoi-fails (c ∷ []) h = ground arith
atoi-fails (c ∷ d ∷ s) h = ground (arith, digits-fails 0 (c ∷ d ∷ s), digits-fails 0 (d ∷ s))

flags_clean : none_has_comma flags ≡ true
unfolding contains_char
flags_clean = refl

versions_clean : none_has_comma versions ≡ true
unfolding contains_char
versions_clean = refl

numbers_clean : none_has_comma numbers ≡ true
unfolding contains_char
numbers_clean = refl

version_rule-no_comma : (v : Text) → version_rule (some v) ≡ ok tt → contains_char comma v ≡ false
unfolding version_rule contains_char
version_rule-no_comma v h = elim (Bool-cases (v == codes "3")) [
  | inl three ↦ rw ((text_eq_iff v (codes "3")).0 three) refl
  | inr other ↦ elim (Bool-cases (v == codes "4")) [
    | inl four ↦ rw ((text_eq_iff v (codes "4")).0 four) refl
    | inr neither ↦ absurd (ground (arith, h, other, neither))
  ]
]

number_rule-no_comma : (v : Text) → number_rule (some v) ≡ ok tt → contains_char comma v ≡ false
unfolding number_rule is_positive_int32
number_rule-no_comma v h = ground (arith, atoi-fails v)

-- The switch, whichever case holds
switch-no_comma :
    (f v n : Bool) (key : Text) (value : Option Text)
    → (f ≡ true → contains_char comma key ≡ false)
    → (v ≡ true → contains_char comma key ≡ false)
    → (n ≡ true → contains_char comma key ≡ false)
    → (if f
        then flag_rule value
        else if v
        then version_rule value
        else if n
        then number_rule value
        else err not_allowed)
      ≡ ok tt
    → (contains_char comma key || behind comma value) ≡ false
switch-no_comma true v n key none pf pv pn h = rw (pf refl) refl
switch-no_comma true v n key (some x) pf pv pn h = absurd (ground (arith, h))
switch-no_comma false true n key none pf pv pn h = rw (pv refl) refl
switch-no_comma false true n key (some x) pf pv pn h = rw (pv refl) (version_rule-no_comma x h)
switch-no_comma false false true key none pf pv pn h = rw (pn refl) refl
switch-no_comma false false true key (some x) pf pv pn h = rw (pn refl) (number_rule-no_comma x h)
switch-no_comma false false false key value pf pv pn h = absurd (ground (arith, h))

-- A key and a value that the switch lets through have no comma.
option_rule-no_comma :
    (key : Text) (value : Option Text)
    → option_rule key value ≡ ok tt
    → (contains_char comma key || behind comma value) ≡ false
unfolding option_rule
option_rule-no_comma key value h =
    switch-no_comma (contains flags key) (contains versions key) (contains numbers key) key value
      (known-no_comma flags key flags_clean) (known-no_comma versions key versions_clean)
      (known-no_comma numbers key numbers_clean) h

guards-ok :
    (empty seen : Bool) (rule rest : Result NfsError (Unit {0}))
    → (if empty then err empty_option else if seen then err duplicate_option else (rule >> rest))
      ≡ ok tt
    → (rule ≡ ok tt) × (rest ≡ ok tt)
guards-ok empty seen rule rest h = ground arith

option_key-comma :
    (table : ℕ → ℕ) (o : Text)
    → contains_char comma (cut b'=' o).0 ≡ true
    → contains_char comma (option_key table o) ≡ true
unfolding option_key is_space lower_rune trim_space
option_key-comma table o h =
    contains_char-to_lower comma table (trim_space (cut b'=' o).0) refl
      (contains_char-trim comma is_space refl (cut b'=' o).0 ∙ h)

option-no_comma :
    (table : ℕ → ℕ) (o : Text)
    → option_rule (option_key table (trim_space o)) (cut b'=' (trim_space o)).1 ≡ ok tt
    → contains_char comma o ≡ false
unfolding is_space trim_space
option-no_comma table o h = ground (
  arith,
  contains_char-trim comma is_space refl o,
  contains_char-cut comma b'=' (trim_space o) refl,
  option_key-comma table (trim_space o),
  option_rule-no_comma (option_key table (trim_space o)) (cut b'=' (trim_space o)).1 h,
)

options_from-no_comma :
    (table : ℕ → ℕ) (seen os : List Text)
    → options_from table seen os ≡ ok tt
    → All (IsWhole comma) os
unfolding options_from
options_from-no_comma table seen [] h = tt
options_from-no_comma table seen (o ∷ os) h =
    let key = option_key table (trim_space o) in
    let (rule, rest) =
      guards-ok (trim_space o == []) (contains seen key)
        (option_rule key (cut b'=' (trim_space o)).1) (options_from table (key ∷ seen) os) h in
    (option-no_comma table o rule, options_from-no_comma table (key ∷ seen) os rest)

-- Options that pass the validation are no less and no more when they are joined with commas, as the
-- argument of -o, and taken apart again.
pub validate_nfs_mount_options-split :
    (table : ℕ → ℕ) (o : Text) (os : List Text)
    → validate_nfs_mount_options table (o ∷ os) ≡ ok tt
    → split comma (join (codes ",") (o ∷ os)) ≡ o ∷ os
unfolding validate_nfs_mount_options
validate_nfs_mount_options-split table o os h =
    let (first, rest) = options_from-no_comma table [] (o ∷ os) h in
    split-join comma o os first rest
