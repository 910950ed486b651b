-- ===== src/Resolver/Nameservers/Tests.antt =====
-- A concrete list of nameservers of pkg/maclet/dns_resolver.go.
use maclet.Net.V4.{parse_v4}
use maclet.Net.Cidr.{parse_ip}
use maclet.Prelude.{◌≡◌, refl, not, ◌&&◌, List, [], ◌∷◌, ◌==◌, text_eq_instance, contains}
use maclet.Prelude.Text.{Text, codes}
use maclet.Resolver.{is_ip, valid_nameservers}
use maclet.Resolver.Nameservers.{IsAscending, is_candidate, valid_nameservers_lem}

abbrev candidates : List Text
candidates = codes " 10.43.0.11 " ∷ codes "10.43.0.10" ∷ codes "None" ∷ codes "10.43.0.10" ∷ []

valid_nameservers_lem_example :
    IsAscending (valid_nameservers candidates)
    × ((n : Text)
        → contains (valid_nameservers candidates) n
          ≡ (is_candidate n candidates && not (n == []) && is_ip n))
valid_nameservers_lem_example = valid_nameservers_lem candidates

valid : valid_nameservers candidates ≡ codes "10.43.0.10" ∷ codes "10.43.0.11" ∷ []
unfolding valid_nameservers parse_ip parse_v4
valid = refl
