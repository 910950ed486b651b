-- ===== src/SearchDomains/Manager/Tests.antt =====
-- Concrete runs of the modules that model pkg/maclet/dns_search_domains.go.
use maclet.SearchDomains.Parsers.{
  parse_network_service_device, parse_effective_search_domains, effective_lines, lines,
  domain_lines, parse_search_domains,
}
use maclet.Prelude.{
  list_eq, ℕ, ◌≡◌, refl, true, false, Option, some, List, [], ◌∷◌, text_eq_instance, contains,
}
use maclet.Prelude.Text.{
  trim_suffix_char, trim_space, trim_right, trim_left, trim, to_lower, lower_rune, is_space,
  has_suffix, has_prefix, cut, contains_text, contains_char, split, Text, codes,
}
use maclet.SearchDomains.Lists.{
  search_domains_args, select, normalize_from, default_search_domains, is_skipped, canonical,
  normalize_search_domains, foreign,
}
use maclet.SearchDomains.Manager.{
  verify, set, release, publish, live, found_service, effective_search_domains, apply, react, run,
  search_domains, resolve_service, Call, is_empty, World, new_manager, reconcile,
}
use maclet.SearchDomains.Manager.Etiquette.{
  last_read, reconcile-owned, IsPolite, reconcile-IsPolite,
}

-- Only ASCII occurs below.
abbrev plain : ℕ → ℕ
plain c = c

abbrev requested : List Text
requested = codes " SVC.cluster.local. " ∷ codes "none" ∷ codes "svc.cluster.local" ∷ []

-- A Mac whose Wi-Fi service has the domain of a VPN after the first write.
abbrev vpn : List Call → Call → Option Text
vpn [] c = some (codes "There aren't any Search Domains set on Wi-Fi.")
vpn (x ∷ h) c = some (codes "ts.net")

abbrev idle : World
idle = record { manager = new_manager plain [] (codes "Wi-Fi") []; calls = [] }

reconcile-IsPolite_example :
    IsPolite plain vpn default_search_domains (reconcile plain vpn idle).1.calls
unfolding new_manager normalize_search_domains normalize_from is_skipped canonical contains
reconcile-IsPolite_example = reconcile-IsPolite plain vpn idle tt

-- The first tick publishes the list; the next one finds the VPN's and withdraws.
publishes : (reconcile plain vpn idle).1.manager.owned ≡ true
unfolding reconcile new_manager normalize_search_domains normalize_from is_skipped canonical
    contains resolve_service search_domains run react foreign select parse_search_domains
    domain_lines lines split list_eq contains_char contains_text cut has_prefix has_suffix is_space
    lower_rune to_lower trim trim_left trim_right trim_space trim_suffix_char search_domains_args
    apply effective_search_domains found_service live publish release set verify effective_lines
    parse_effective_search_domains parse_network_service_device
publishes = refl

withdraws : (reconcile plain vpn (reconcile plain vpn idle).1).1.manager.owned ≡ false
unfolding reconcile new_manager normalize_search_domains normalize_from is_skipped canonical
    contains resolve_service search_domains run react foreign select parse_search_domains
    domain_lines lines split list_eq contains_char contains_text cut has_prefix has_suffix is_space
    lower_rune to_lower trim trim_left trim_right trim_space trim_suffix_char search_domains_args
    apply effective_search_domains found_service live publish release set verify effective_lines
    parse_effective_search_domains parse_network_service_device
withdraws = refl

reconcile-owned_example :
    (reconcile plain vpn idle).1.manager.owned
    ≡ is_empty (
        foreign plain
          (last_read plain vpn (reconcile plain vpn idle).1.calls)
          default_search_domains)
unfolding reconcile new_manager normalize_search_domains normalize_from is_skipped canonical
    contains resolve_service search_domains run react foreign select parse_search_domains
    domain_lines lines split list_eq contains_char contains_text cut has_prefix has_suffix is_space
    lower_rune to_lower trim trim_left trim_right trim_space trim_suffix_char search_domains_args
    apply effective_search_domains found_service live publish release set verify effective_lines
    parse_effective_search_domains parse_network_service_device
reconcile-owned_example = reconcile-owned plain vpn idle refl refl
