-- ===== src/Network/Tests.antt =====
-- Concrete runs of the modules that model pkg/maclet/darwin_network.go and workload_network.go.
use maclet.Prelude.{
  ℕ, ◌<◌, ◌≤◌, ◌≡◌, refl, ◌↔◌, Bool, true, false, List, [], ◌∷◌, ◌==◌, text_eq_instance, ok, err,
  arith, ◌+◌,
}
use maclet.Prelude.Text.{split, contains_char, cut, Text, codes}
use maclet.Net.V4.{parse_v4, format_v4}
use maclet.Net.Cidr.{to4, parse_ip, Network, parse_cidr}
use maclet.Net.Laws.{base_of}
use maclet.Network.Addresses.{
  bridge_address_for_cidr, workload_ip_for_offset, first_free, exhausted,
  first_available_workload_ip,
}
use maclet.Network.Handle.{
  is_reserved, Handle, PeerGateway, Call, list_interfaces, Reply, done, table,
  handle_first_available, handle_validate_address, check_address,
}
use maclet.Network.Aliases.{World}
use maclet.Network.Allocation.{
  IsWorkloadAddress, first_available_workload_ip_sound, first_available_workload_ip_exhausted,
}
use maclet.Network.Agreement.{handle_first_available-checked}

abbrev cidr : Text
cidr = codes "10.42.3.0/29"

abbrev third : Text
third = codes "10.42.3.3"

abbrev fourth : Text
fourth = codes "10.42.3.4"

abbrev peer : PeerGateway
peer = record {
  pod_cidr = codes "10.42.0.0/24";
  gateway = codes "10.42.3.5";
  mac = [];
  public_ip = [];
}

abbrev node : Handle
node = record {
  interface = codes "bridge100";
  pod_cidr = cidr;
  gateway = codes "10.42.3.1";
  gateway_mac = [];
  peer_gateways = peer ∷ [];
  arps = [];
  routes = [];
  aliases = [];
}

abbrev in_use : Text → Bool
in_use t = t == third

handle_first_available-checked_example :
    (in_use fourth ≡ false)
    × (handle_validate_address node fourth ≡ ok tt)
    × (check_address node fourth ≡ ok fourth)
unfolding handle_first_available parse_cidr cut parse_ip parse_v4 contains_char first_free
    workload_ip_for_offset to4 format_v4 is_reserved bridge_address_for_cidr split
handle_first_available-checked_example = handle_first_available-checked node in_use fourth refl

first_available_workload_ip_sound_example :
    (net : Network) × (offset : ℕ) × IsWorkloadAddress cidr net offset fourth
    × (in_use fourth ≡ false)
    × ((j : ℕ) → 3 ≤ j → j < offset → in_use (format_v4 (base_of net + j)) ≡ true)
unfolding first_available_workload_ip parse_cidr cut parse_ip parse_v4 contains_char first_free
    workload_ip_for_offset to4 format_v4
first_available_workload_ip_sound_example =
    first_available_workload_ip_sound in_use cidr fourth refl

abbrev subnet : Network
subnet = record { ip = 0xFFFF0A2A0300; prefix = 29; bits = 32 }

first_available_workload_ip_exhausted_example :
    (first_available_workload_ip (λ t. true) cidr ≡ err exhausted)
    ↔ ((j : ℕ) → 3 ≤ j → j < 7 → true ≡ true)
unfolding parse_cidr cut parse_ip parse_v4 contains_char
first_available_workload_ip_exhausted_example =
    first_available_workload_ip_exhausted (λ t. true) cidr subnet refl refl (omega arith)
      (omega arith)

-- A Mac without the alias, where ifconfig succeeds.
abbrev mac : List Call → Call → Reply
mac h list_interfaces = table []
mac h _ = done

abbrev idle : World
idle = record { handle = node; calls = [] }
