-- ===== src/Network/Handle.antt =====
-- DarwinNetworkHandle (pkg/maclet/darwin_network.go) and the address check of
-- pkg/maclet/workload_network.go. The host is an oracle: what it answers may depend on all calls made
-- so far, which are kept newest first.
use maclet.Prelude.{
  ℕ, ◌+◌, ◌-◌, ◌%◌, ◌^◌, Bool, false, not, ◌||◌, Option, none, some, List, [], ◌∷◌, ltb, leb, eqb,
  ◌==◌, text_eq_instance, if◌then◌else◌, Result, ok, err, or_err, ◌>>=◌,
}
use maclet.Prelude.Text.{Text, split}
use maclet.Net.V4.{format_v4}
use maclet.Net.Cidr.{Network, parse_cidr, parse_ip, to4, ip_equal, network_contains}
use maclet.Network.Addresses.{
  NetError, bad_cidr, not_ipv4, not_ipv4_address, outside_cidr, reserved, no_usable_addresses,
  broadcast, u32, broadcast_offset, first_free, bridge_address_for_cidr,
}

pub record PeerGateway : Type 0 where
  pub pod_cidr : Text
  pub gateway : Text
  pub mac : Text
  pub public_ip : Text

pub record Route : Type 0 where
  pub network : Text
  pub netmask : Text
  pub gateway : Text

pub record Arp : Type 0 where
  pub ip : Text
  pub mac : Text

pub record Handle : Type 0 where
  pub interface : Text
  pub pod_cidr : Text
  pub gateway : Text
  pub gateway_mac : Text
  pub peer_gateways : List PeerGateway
  pub arps : List Arp
  pub routes : List Route
  pub aliases : List Text

-- What the program asks of the host; the commands carry the arguments that vary.
pub data Call : Type 0 where
  list_interfaces : Call
  find_interface : Text → Call
  add_alias : Text → Text → Call
  remove_alias : Text → Text → Call
  delete_route : Route → Call
  delete_arp : Text → Text → Call

-- An interface without readable addresses is skipped by the program.
pub data Reply : Type 0 where
  failed done : Reply
  table : List (Text × Option (List ℕ)) → Reply

-- net.ParseIP(strings.Split(bridgeIP, "/")[0]); a failed bridgeAddressForCIDR leaves the empty text.
bridge_ip : Result NetError Text → Option ℕ
bridge_ip (ok text) = elim (split b'/' text) [ [] ↦ none | p ∷ ps ↦ parse_ip p ]
bridge_ip (err e) = none

any_gateway : Option ℕ → List PeerGateway → Bool
any_gateway ip [] = false
any_gateway ip (p ∷ ps) = ip_equal ip (parse_ip p.gateway) || any_gateway ip ps

-- isReservedWorkloadIP
unfoldable pub is_reserved : Handle → Option ℕ → ℕ → Bool
unfolding bridge_ip any_gateway
is_reserved h ip network_ip =
    ip_equal ip (some network_ip)
    || ip_equal ip (bridge_ip (bridge_address_for_cidr h.pod_cidr))
    || ip_equal ip (parse_ip h.gateway)
    || any_gateway ip h.peer_gateways

-- The method firstAvailableWorkloadIP: it skips the reserved addresses too.
unfoldable pub handle_first_available : Handle → (Text → Bool) → Result NetError Text
handle_first_available h used = do
  net ← or_err (parse_cidr h.pod_cidr) bad_cidr
  if not (eqb net.bits 32)
      then err not_ipv4
      else first_free (λ ip. used ip || is_reserved h (parse_ip ip) net.ip) h.pod_cidr
          (broadcast_offset (net.bits - net.prefix) - 3) 3

-- The function validateWorkloadAddress
unfoldable pub address_rule : Network → ℕ → Result NetError (Unit {0})
address_rule net v4 =
    if not (eqb net.bits 32) || ltb 30 net.prefix
    then err no_usable_addresses
    else if ltb (u32 (v4 + 2 ^ 32 - net.ip % 2 ^ 32)) 3
        || leb (broadcast_offset (net.bits - net.prefix)) (u32 (v4 + 2 ^ 32 - net.ip % 2 ^ 32))
    then err reserved
    else ok tt

unfoldable pub validate_address : Text → Text → Result NetError (Unit {0})
unfolding address_rule
validate_address cidr ip = do
  parsed ← or_err (parse_ip ip) not_ipv4_address
  v4 ← or_err (to4 parsed) not_ipv4_address
  net ← or_err (parse_cidr cidr) bad_cidr
  if network_contains net parsed then address_rule net v4 else err outside_cidr

-- The method validateWorkloadAddress
unfoldable pub handle_validate_address : Handle → Text → Result NetError (Unit {0})
handle_validate_address h ip = validate_address h.pod_cidr ip >>= λ _.
    elim (parse_cidr h.pod_cidr) [
      | none ↦ ok tt
      | some net ↦ if is_reserved h (parse_ip ip) net.ip then err reserved else ok tt
    ]

-- The checks of addWorkloadIP: the canonical text of the address.
unfoldable pub check_address : Handle → Text → Result NetError Text
check_address h ip = do
  parsed ← or_err (parse_ip ip) not_ipv4_address
  v4 ← or_err (to4 parsed) not_ipv4_address
  net ← or_err (parse_cidr h.pod_cidr) bad_cidr
  if not (network_contains net parsed)
      then err outside_cidr
      else if is_reserved h (some parsed) net.ip
      then err reserved
      else if not (eqb net.bits 32) || ltb 30 net.prefix
      then err no_usable_addresses
      else if eqb v4 (u32 (net.ip % 2 ^ 32 + broadcast_offset (net.bits - net.prefix)))
      then err broadcast
      else ok (format_v4 v4)

-- The first alias is dropped, as by append(h.Aliases[:index], h.Aliases[index+1:]...).
unfoldable pub drop_alias : Text → List Text → List Text
drop_alias a [] = []
drop_alias a (x ∷ xs) = if x == a then xs else x ∷ drop_alias a xs
