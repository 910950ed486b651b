-- ===== src/Network/Addresses.antt =====
-- The addresses that maclet takes from a PodCIDR (pkg/maclet/darwin_network.go). Numbers are
-- uint32, with the wrap-around written out.
use maclet.Prelude.{
  ℕ, zero, suc, ◌+◌, ◌-◌, ◌%◌, ◌^◌, Bool, not, ◌||◌, ◌∷◌, ◌++◌, ltb, leb, eqb, if◌then◌else◌,
  Result, ok, err, ◌>>=◌, or_err,
}
use maclet.Prelude.Text.{Text, itoa}
use maclet.Net.V4.{format_v4}
use maclet.Net.Cidr.{parse_cidr, to4}

pub data NetError : Type 0 where
  bad_cidr not_ipv4 no_second_address unsupported_range exhausted no_gateways : NetError
  offset_unavailable : ℕ → NetError
  no_peer_gateway : ℕ → NetError
  no_first_address : NetError
  not_ipv4_address outside_cidr no_usable_addresses reserved broadcast : NetError
  inspect_failed present_elsewhere alias_failed unalias_failed : NetError

abbrev pub u32 : ℕ → ℕ
u32 n = n % 2 ^ 32

-- uint32(1<<hostBits) - 1
abbrev pub broadcast_offset : ℕ → ℕ
broadcast_offset host_bits = u32 (u32 (2 ^ host_bits) + 2 ^ 32 - 1)

unfoldable pub gateway_address_for_cidr : Text → Result NetError Text
gateway_address_for_cidr cidr = do
  net ← or_err (parse_cidr cidr) bad_cidr
  ip4 ← or_err (to4 net.ip) not_ipv4
  if not (eqb net.bits 32) || ltb 30 net.prefix
      then err no_second_address
      else ok (format_v4 (u32 (ip4 + 2)))

-- `usable` is the last offset check; the lookup of the network is the same in both callers.
unfoldable pub workload_ip_for_offset : Text → ℕ → Result NetError Text
workload_ip_for_offset cidr offset = do
  net ← or_err (parse_cidr cidr) bad_cidr
  ip4 ← or_err (to4 net.ip) not_ipv4
  if not (eqb net.bits 32)
      then err not_ipv4
      else if ltb (net.bits - net.prefix) 2 || ltb 16 (net.bits - net.prefix)
      then err unsupported_range
      else if ltb offset 3 || leb (broadcast_offset (net.bits - net.prefix)) offset
      then err (offset_unavailable offset)
      else ok (format_v4 (u32 (ip4 + offset)))

-- The loop of both allocators: `taken` is the test that skips an address, `rounds` the offsets that
-- are left below the broadcast address.
unfoldable pub first_free : (Text → Bool) → Text → ℕ → ℕ → Result NetError Text
first_free taken cidr zero offset = err exhausted
first_free taken cidr (suc rounds) offset =
    let later = first_free taken cidr rounds (offset + 1) in
    workload_ip_for_offset cidr offset >>= λ ip. if taken ip then later else ok ip

unfoldable pub first_available_workload_ip : (Text → Bool) → Text → Result NetError Text
first_available_workload_ip used cidr = do
  net ← or_err (parse_cidr cidr) bad_cidr
  if not (eqb net.bits 32)
      then err not_ipv4
      else if ltb (net.bits - net.prefix) 2 || ltb 16 (net.bits - net.prefix)
      then err unsupported_range
      else first_free used cidr (broadcast_offset (net.bits - net.prefix) - 3) 3

unfoldable pub peer_gateway_address_for_cidr : Text → ℕ → Result NetError Text
peer_gateway_address_for_cidr cidr index = do
  net ← or_err (parse_cidr cidr) bad_cidr
  ip4 ← or_err (to4 net.ip) not_ipv4
  if not (eqb net.bits 32) || ltb 30 net.prefix
      then err no_gateways
      else if eqb index 0
      then ok (format_v4 (u32 (ip4 + 2)))
      else if leb (broadcast_offset (net.bits - net.prefix) - 2) (u32 index)
      then err (no_peer_gateway index)
      else ok (format_v4 (u32 (ip4 + (broadcast_offset (net.bits - net.prefix) - u32 index))))

unfoldable pub bridge_address_for_cidr : Text → Result NetError Text
bridge_address_for_cidr cidr = do
  net ← or_err (parse_cidr cidr) bad_cidr
  ip4 ← or_err (to4 net.ip) not_ipv4
  if eqb ip4 (2 ^ 32 - 1)
      then err no_first_address
      else ok (format_v4 (ip4 + 1) ++ b'/' ∷ itoa net.prefix)
