-- ===== src/Resolver/Nameservers.antt =====
-- The list of nameservers (pkg/maclet/dns_resolver.go): its order and its members.
mod Tests
use maclet.Prelude.{
  ℕ, ◌≡◌, refl, sym, ap, ◌∙◌, subst, Bool, true, false, not, ◌||◌, ◌&&◌, List, [], ◌∷◌, arith, ltb,
  eqb, All, text_eq, text_eq_iff, ◌==◌, text_eq_instance, contains, same_refl, if◌then◌else◌,
  Bool-cases, inl, inr,
}
use maclet.Prelude.Text.{Text, trim_space}
use maclet.Workloads.Journal.{text_less}
use maclet.Resolver.{is_ip, nameservers_from, insert_text, sort_texts, valid_nameservers}

-- The texts stand in strictly ascending order.
abbrev pub IsAscending : List Text → Type 0
IsAscending [] = Unit
IsAscending (x ∷ []) = Unit
IsAscending (x ∷ y ∷ xs) = (text_less x y ≡ true) × IsAscending (y ∷ xs)

-- One of the candidates, without the space around it, is the text.
abbrev pub is_candidate : Text → List Text → Bool
is_candidate n [] = false
is_candidate n (c ∷ cs) = text_eq (trim_space c) n || is_candidate n cs

-- Two texts of which neither comes before the other are the same.
text_less-total : (a b : Text) → text_less a b ≡ false → text_less b a ≡ false → text_eq a b ≡ true
unfolding text_less
text_less-total [] [] h k = refl
text_less-total [] (y ∷ ys) h k = cc
text_less-total (x ∷ xs) [] h k = cc
text_less-total (x ∷ xs) (y ∷ ys) h k = ground (arith, text_less-total xs ys)

contains-insert :
    (t n : Text) (xs : List Text) → contains (insert_text t xs) n ≡ (text_eq t n || contains xs n)
unfolding contains insert_text
contains-insert t n [] = refl
contains-insert t n (x ∷ xs) = ground (arith, contains-insert t n xs)

pub contains-sort : (n : Text) (xs : List Text) → contains (sort_texts xs) n ≡ contains xs n
unfolding contains sort_texts
contains-sort n [] = refl
contains-sort n (x ∷ xs) =
    contains-insert x n (sort_texts xs) ∙ ap (λ b. text_eq x n || b) (contains-sort n xs)

-- Inserting behind a text that comes first
insert-behind :
    (x t : Text) (xs : List Text)
    → text_less x t ≡ true
    → IsAscending (x ∷ xs)
    → IsAscending (insert_text t xs)
    → IsAscending (x ∷ insert_text t xs)
unfolding insert_text
insert-behind x t [] less up inserted = (less, tt)
insert-behind x t (y ∷ ys) less up inserted = elim (Bool-cases (text_less y t)) [
  | inl before ↦
      subst
        (λ b.
          IsAscending (if b then y ∷ insert_text t ys else t ∷ y ∷ ys)
          → IsAscending (x ∷ (if b then y ∷ insert_text t ys else t ∷ y ∷ ys)))
        (sym before) (λ i. (up.0, i)) inserted
  | inr behind ↦
      subst
        (λ b.
          IsAscending (if b then y ∷ insert_text t ys else t ∷ y ∷ ys)
          → IsAscending (x ∷ (if b then y ∷ insert_text t ys else t ∷ y ∷ ys)))
        (sym behind) (λ i. (less, i)) inserted
]

tail-IsAscending : (x : Text) (xs : List Text) → IsAscending (x ∷ xs) → IsAscending xs
tail-IsAscending x [] h = tt
tail-IsAscending x (y ∷ ys) h = h.1

insert-IsAscending :
    (t : Text) (xs : List Text)
    → contains xs t ≡ false
    → IsAscending xs
    → IsAscending (insert_text t xs)
unfolding insert_text contains
insert-IsAscending t [] new up = tt
insert-IsAscending t (x ∷ xs) new up =
    let rest = insert-IsAscending t xs (ground (arith, new)) (tail-IsAscending x xs up) in
    elim (Bool-cases (text_less x t)) [
      | inl before ↦ rw before (insert-behind x t xs before up rest)
      | inr behind ↦ rw behind (ground (arith, new, text_less-total x t behind), up)
    ]

-- No text stands in the list twice.
abbrev pub IsDistinct : List Text → Type 0
IsDistinct [] = Unit
IsDistinct (x ∷ xs) = (contains xs x ≡ false) × IsDistinct xs

pub sort-IsAscending : (xs : List Text) → IsDistinct xs → IsAscending (sort_texts xs)
unfolding sort_texts
sort-IsAscending [] d = tt
sort-IsAscending (x ∷ xs) d =
    insert-IsAscending x (sort_texts xs) (contains-sort x xs ∙ d.0) (sort-IsAscending xs d.1)

contains_head : (n : Text) (xs : List Text) → contains (n ∷ xs) n ≡ true
unfolding contains
contains_head n xs = ground (arith, same_refl n)

-- The loop keeps the addresses among the candidates that were not seen.
contains-nameservers_from :
    (seen cs : List Text) (n : Text)
    → contains (nameservers_from seen cs) n
      ≡ (is_candidate n cs && not (n == []) && is_ip n && not (contains seen n))
unfolding nameservers_from contains
contains-nameservers_from seen [] n = refl
contains-nameservers_from seen (c ∷ cs) n = elim (Bool-cases (text_eq (trim_space c) n)) [
  | inl this ↦
      subst
        (λ m.
          contains (nameservers_from seen (c ∷ cs)) m
          ≡ (is_candidate m (c ∷ cs) && not (m == []) && is_ip m && not (contains seen m)))
        ((text_eq_iff (trim_space c) n).0 this)
        (ground (
          arith,
          contains-nameservers_from seen cs (trim_space c),
          contains-nameservers_from (trim_space c ∷ seen) cs (trim_space c),
          same_refl (trim_space c),
        ))
  | inr other ↦ ground (
    arith,
    other,
    contains-nameservers_from seen cs n,
    contains-nameservers_from (trim_space c ∷ seen) cs n,
  )
]

nameservers_from-IsDistinct : (seen cs : List Text) → IsDistinct (nameservers_from seen cs)
unfolding nameservers_from
nameservers_from-IsDistinct seen [] = tt
nameservers_from-IsDistinct seen (c ∷ cs) =
    let n = trim_space c in
    let new : contains (nameservers_from (n ∷ seen) cs) n ≡ false =
      ground (arith, contains-nameservers_from (n ∷ seen) cs n, contains_head n seen) in
    elim (Bool-cases (n == [] || not (is_ip n) || contains seen n)) [
      | inl skip ↦ rw skip (nameservers_from-IsDistinct seen cs)
      | inr keep ↦ rw keep (new, nameservers_from-IsDistinct (n ∷ seen) cs)
    ]

-- The nameservers are the candidates that are addresses, without the space around them, each once and in
-- ascending order.
pub valid_nameservers_lem :
    (cs : List Text)
    → IsAscending (valid_nameservers cs)
      × ((n : Text)
          → contains (valid_nameservers cs) n ≡ (is_candidate n cs && not (n == []) && is_ip n))
unfolding valid_nameservers contains
valid_nameservers_lem cs = (
  sort-IsAscending (nameservers_from [] cs) (nameservers_from-IsDistinct [] cs),
  λ n. contains-sort n (nameservers_from [] cs) ∙ contains-nameservers_from [] cs n ∙ ground arith,
)
