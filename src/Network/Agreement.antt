-- ===== src/Network/Agreement.antt =====
-- The three checks of a workload address agree: what the allocator of the handle returns, both
-- validation functions accept, and so do the checks of addWorkloadIP.
use maclet.Prelude.{
  ℕ, ◌+◌, ◌-◌, ◌%◌, ◌^◌, ◌≤◌, ◌<◌, ◌≡◌, Bool, true, false, ◌||◌, some, arith, eqb, ok, bind-eq-ok,
  or_err,
}
use maclet.Prelude.Text.{Text}
use maclet.Net.V4.{format_v4}
use maclet.Net.Cidr.{mapped, Network, parse_cidr, parse_ip, network_contains}
use maclet.Net.Laws.{IsV4, base_of, host_bits_of, parse_ip-format_v4, to4-mapped, parse_cidr-IsV4}
use maclet.Network.Addresses.{bad_cidr, u32, broadcast_offset}
use maclet.Network.Handle.{
  Handle, is_reserved, handle_first_available, validate_address, address_rule,
  handle_validate_address, check_address,
}
use maclet.Network.Allocation.{
  first_free_sound, IsV4-room, to4_of_IsV4, broadcast_offset_lem, pow_le,
}

masked_offset :
    (m base off : ℕ) → base % m ≡ 0 → off < m → base + off - (base + off) % m ≡ base - base % m
masked_offset m base off e lt = grind arith

module _ (net : Network) (base h off : ℕ) (v : IsV4 net base h) (small : 2 ≤ h) (large : h ≤ 16)
    (above : 3 ≤ off) (below : off < 2 ^ h - 1) where
  room : base + off < 2 ^ 32
  room = omega (arith, IsV4-room v)

  contains_offset : network_contains net (mapped (base + off)) ≡ true
  unfolding network_contains
  contains_offset =
      let w : net.bits - net.prefix ≡ h = omega arith in
      ground (
        arith,
        w,
        to4_of_IsV4 v,
        to4-mapped (base + off) room,
        masked_offset (2 ^ h) base off v.aligned (omega arith),
      )

  difference : u32 (base + off + 2 ^ 32 - net.ip % 2 ^ 32) ≡ off
  difference = rw v.ip (omega (arith, IsV4-room v, pow_le h))

  last_offset : eqb (base + off) (u32 (net.ip % 2 ^ 32 + broadcast_offset h)) ≡ false
  last_offset = rw (v.ip, broadcast_offset_lem h (omega arith)) (ground (arith, IsV4-room v))

  address_rule_offset : address_rule net (base + off) ≡ ok tt
  unfolding address_rule
  address_rule_offset =
      let w : net.bits - net.prefix ≡ h = omega arith in
      ground (arith, w, difference, broadcast_offset_lem h)

  module _ (cidr : Text) (parsed : parse_cidr cidr ≡ some net) where
    validate_offset : validate_address cidr (format_v4 (base + off)) ≡ ok tt
    unfolding validate_address
    validate_offset =
        rw (parse_ip-format_v4 (base + off) room)
          (rw (to4-mapped (base + off) room) (rw (parsed, contains_offset) address_rule_offset))

  module _ (hd : Handle) (parsed : parse_cidr hd.pod_cidr ≡ some net)
      (free : is_reserved hd (some (mapped (base + off))) net.ip ≡ false) where
    handle_validate_offset : handle_validate_address hd (format_v4 (base + off)) ≡ ok tt
    unfolding handle_validate_address
    handle_validate_offset =
        rw (validate_offset hd.pod_cidr parsed)
          (ground (arith, parsed, free, parse_ip-format_v4 (base + off) room))

    check_offset : check_address hd (format_v4 (base + off)) ≡ ok (format_v4 (base + off))
    unfolding check_address
    check_offset =
        let w : net.bits - net.prefix ≡ h = omega arith in
        rw (parse_ip-format_v4 (base + off) room) (
          rw (to4-mapped (base + off) room)
            (rw (parsed, contains_offset, free) (ground (arith, w, last_offset, IsV4-room v))))

-- The address that the allocator of a handle returns passes the validation of that handle and the
-- checks of addWorkloadIP, which keep its text; it is neither used nor reserved.
pub handle_first_available-checked :
    (hd : Handle) (used : Text → Bool) (ip : Text)
    → handle_first_available hd used ≡ ok ip
    → (used ip ≡ false) × (handle_validate_address hd ip ≡ ok tt) × (check_address hd ip ≡ ok ip)
unfolding handle_first_available
handle_first_available-checked hd used ip e =
    let (net, found, rest) = bind-eq-ok (or_err (parse_cidr hd.pod_cidr) bad_cidr) _ e in
    let parsed : parse_cidr hd.pod_cidr ≡ some net = ground arith in
    let v = parse_cidr-IsV4 hd.pod_cidr net parsed (ground arith) in
    let taken : Text → Bool = λ t. used t || is_reserved hd (parse_ip t) net.ip in
    let (k, (o, le, printed, free, before)) =
      first_free_sound hd.pod_cidr net (base_of net) (host_bits_of net) parsed v taken
        (broadcast_offset (net.bits - net.prefix) - 3) 3 ip (ground arith) in
    let (small, large, above, below) = o in
    let b = base_of net in
    let h = host_bits_of net in
    let read = parse_ip-format_v4 (b + k) (room net b h k v small large above below) in
    let open_ip : is_reserved hd (some (mapped (b + k))) net.ip ≡ false =
      ground (arith, printed, free, read) in
    (
      ground (arith, free),
      rw printed (handle_validate_offset net b h k v small large above below hd parsed open_ip),
      rw printed (check_offset net b h k v small large above below hd parsed open_ip),
    )
