-- ===== src/SearchDomains/Lists.antt =====
-- Lists of search domains (pkg/maclet/dns_search_domains.go): normalizeSearchDomains,
-- splitSearchDomains and searchDomainsArgs. `table` is the lower-case table of the runes above ASCII.
pub mod Laws
use maclet.Prelude.{
  ℕ, Bool, true, false, not, ◌||◌, List, [], ◌∷◌, ◌++◌, ◌==◌, text_eq_instance, contains,
  if◌then◌else◌,
}
use maclet.Prelude.Text.{Text, codes, trim_space, to_lower, trim_suffix_char}

abbrev pub default_search_domains : List Text
default_search_domains = codes "svc.cluster.local" ∷ codes "cluster.local" ∷ []

-- The empty domain, and the placeholders that networksetup prints for an empty list.
unfoldable pub is_skipped : Text → Bool
is_skipped d = d == [] || d == codes "none" || d == codes "empty"

module _ (table : ℕ → ℕ) where
  unfoldable pub canonical : Text → Text
  unfolding trim_space to_lower trim_suffix_char
  canonical d = trim_suffix_char b'.' (to_lower table (trim_space d))

  -- The loop, with the domains seen so far.
  unfoldable pub normalize_from : List Text → List Text → List Text
  normalize_from seen [] = []
  normalize_from seen (d ∷ ds) =
      let skip = normalize_from seen ds in
      let keep = canonical d ∷ normalize_from (canonical d ∷ seen) ds in
      if is_skipped (canonical d) || contains seen (canonical d) then skip else keep

  unfoldable pub normalize_search_domains : List Text → List Text
  normalize_search_domains ds = normalize_from [] ds

-- The domains for which the test holds, in order.
unfoldable pub select : (Text → Bool) → List Text → List Text
select p [] = []
select p (d ∷ ds) = let rest = select p ds in if p d then d ∷ rest else rest

module _ (table : ℕ → ℕ) where
  -- splitSearchDomains: ours, and the rest
  unfoldable pub ours : List Text → List Text → List Text
  ours current managed = select (contains managed) (normalize_search_domains table current)

  unfoldable pub foreign : List Text → List Text → List Text
  foreign current managed =
      select (λ d. not (contains managed d)) (normalize_search_domains table current)

-- The arguments of networksetup; an empty list is written as `Empty`.
unfoldable pub search_domains_args : Text → List Text → List Text
search_domains_args service [] = codes "-setsearchdomains" ∷ service ∷ codes "Empty" ∷ []
search_domains_args service (d ∷ ds) = codes "-setsearchdomains" ∷ service ∷ d ∷ ds
