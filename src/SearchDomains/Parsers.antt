-- ===== src/SearchDomains/Parsers.antt =====
-- What networksetup and scutil print (pkg/maclet/dns_search_domains.go): parseSearchDomains,
-- parseEffectiveSearchDomains and parseNetworkServiceDevice.
use maclet.Prelude.{
  ℕ, not, ◌||◌, Option, none, some, List, [], ◌∷◌, ◌++◌, map, eqb, ◌==◌, text_eq_instance,
  if◌then◌else◌,
}
use maclet.Prelude.Text.{
  Text, codes, trim_space, split, cut, has_prefix, has_suffix, contains_text, contains_char,
}
use maclet.SearchDomains.Lists.{normalize_search_domains}

abbrev newline : ℕ
newline = 10

-- The trimmed lines of an output
unfoldable pub lines : Text → List Text
lines output = map trim_space (split newline output)

abbrev pub no_domains_sentence : Text
no_domains_sentence = codes "There aren't any Search Domains"

unfoldable pub domain_lines : List Text → List Text
domain_lines [] = []
domain_lines (l ∷ ls) =
    let rest = domain_lines ls in
    if l == [] || contains_text l no_domains_sentence then rest else l ∷ rest

unfoldable pub parse_search_domains : (ℕ → ℕ) → Text → List Text
parse_search_domains table output = normalize_search_domains table (domain_lines (lines output))

abbrev pub scoped_header : Text
scoped_header = codes "DNS configuration (for scoped queries)"

abbrev pub search_domain_key : Text
search_domain_key = codes "search domain["

-- The values of the `search domain[n] : value` lines above the scoped section
unfoldable pub effective_lines : List Text → List Text
effective_lines [] = []
effective_lines (l ∷ ls) =
    let rest = effective_lines ls in
    if has_prefix l scoped_header
    then []
    else if not (has_prefix l search_domain_key)
    then rest
    else elim (cut b':' l).1 [ none ↦ rest | some value ↦ trim_space value ∷ rest ]

unfoldable pub parse_effective_search_domains : (ℕ → ℕ) → Text → List Text
parse_effective_search_domains table output =
    normalize_search_domains table (effective_lines (lines output))

-- A line `(marker) name` names the service of the hardware lines below it; a disabled one names none.
named_service : Text → Text → Option Text → Text
named_service service rest none = service
named_service service rest (some name) =
    if trim_space name == [] || contains_char b'*' rest then [] else trim_space name

service_of_line : Text → Text → Text
service_of_line service [] = service
service_of_line service (c ∷ rest) =
    if not (eqb c b'(')
    then (if eqb c b'*' then [] else service)
    else named_service service (cut b')' rest).0 (cut b')' rest).1

-- The loop of parseNetworkServiceDevice; the empty text is "no service".
service_from : Text → Text → List Text → Text
service_from device service [] = []
service_from device service (l ∷ ls) =
    let next = service_from device [] ls in
    let same = service_from device (service_of_line service l) ls in
    if has_prefix l (codes "(Hardware Port:")
    then (if has_suffix l (codes "Device: " ++ device ++ codes ")") then service else next)
    else same

unfoldable pub parse_network_service_device : Text → Text → Text
unfolding service_from named_service service_of_line
parse_network_service_device output device = service_from device [] (lines output)
