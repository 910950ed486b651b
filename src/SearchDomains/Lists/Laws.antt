-- ===== src/SearchDomains/Lists/Laws.antt =====
-- What a normalised list holds, and how it is split.
use maclet.Prelude.{
  ℕ, ◌≡◌, refl, ap, Bool, false, not, ◌||◌, ◌&&◌, List, [], ◌∷◌, map, ◌==◌, text_eq_iff,
  text_eq_instance, contains, arith, Bool-cases, inl, inr,
}
use maclet.Prelude.Text.{Text}
use maclet.SearchDomains.Lists.{
  is_skipped, canonical, normalize_from, normalize_search_domains, select,
}

-- No domain stands twice.
abbrev pub IsDistinct : List Text → Type 0
IsDistinct [] = Unit
IsDistinct (d ∷ ds) = (contains ds d ≡ false) × IsDistinct ds

module _ (table : ℕ → ℕ) where
  contains-normalize_from :
      (seen ds : List Text) (c : Text)
      → contains (normalize_from table seen ds) c
        ≡ (not (is_skipped c) && (not (contains seen c) && contains (map (canonical table) ds) c))
  unfolding normalize_from contains
  contains-normalize_from seen [] c = ground arith
  contains-normalize_from seen (d ∷ ds) c = ground (
    arith,
    contains-normalize_from seen ds c,
    contains-normalize_from (canonical table d ∷ seen) ds c,
    text_eq_iff (canonical table d) c,
  )

  -- A normalised list has exactly the canonical forms that are no placeholders.
  pub contains-normalize_search_domains :
      (ds : List Text) (c : Text)
      → contains (normalize_search_domains table ds) c
        ≡ (not (is_skipped c) && contains (map (canonical table) ds) c)
  unfolding normalize_search_domains contains
  contains-normalize_search_domains ds c = ground (arith, contains-normalize_from [] ds c)

  normalize_from-IsDistinct : (seen ds : List Text) → IsDistinct (normalize_from table seen ds)
  unfolding normalize_from contains
  normalize_from-IsDistinct seen [] = tt
  normalize_from-IsDistinct seen (d ∷ ds) =
      elim (Bool-cases (is_skipped (canonical table d) || contains seen (canonical table d))) [
        | inl skip ↦ rw skip (normalize_from-IsDistinct seen ds)
        | inr keep ↦ rw keep (
          ground (
            arith,
            contains-normalize_from (canonical table d ∷ seen) ds (canonical table d),
            text_eq_iff (canonical table d) (canonical table d),
          ),
          normalize_from-IsDistinct (canonical table d ∷ seen) ds,
        )
      ]

contains-select :
    (p : Text → Bool) (ds : List Text) (c : Text)
    → contains (select p ds) c ≡ (contains ds c && p c)
unfolding select contains
contains-select p [] c = refl
contains-select p (d ∷ ds) c = elim (Bool-cases (d == c)) [
  | inl same ↦
      let e : d ≡ c = (text_eq_iff d c).0 same in ground (arith, contains-select p ds c, ap p e)
  | inr other ↦ ground (arith, contains-select p ds c)
]

-- No domain stands twice in a normalised list.
pub normalize_search_domains-IsDistinct :
    (table : ℕ → ℕ) (ds : List Text) → IsDistinct (normalize_search_domains table ds)
unfolding normalize_search_domains
normalize_search_domains-IsDistinct table ds = normalize_from-IsDistinct table [] ds
