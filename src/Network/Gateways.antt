-- ===== src/Network/Gateways.antt =====
-- The synthetic gateways of the Flannel peers (peerGatewayAddressForCIDR).
use maclet.Prelude.{
  ℕ, ◌+◌, ◌-◌, ◌^◌, ◌≤◌, ◌<◌, ◌≡◌, sym, ◌∙◌, some, arith, leb, eqb, if◌then◌else◌, Result, ok, err,
  bind-eq-ok, or_err,
}
use maclet.Prelude.Text.{Text}
use maclet.Net.V4.{format_v4, parse_v4-format_v4}
use maclet.Net.Cidr.{Network, parse_cidr}
use maclet.Net.Laws.{IsV4, base_of, host_bits_of, parse_cidr-IsV4}
use maclet.Network.Addresses.{
  NetError, bad_cidr, no_peer_gateway, u32, peer_gateway_address_for_cidr,
}
use maclet.Network.Allocation.{IsV4-room, to4_of_IsV4, broadcast_offset_lem, pow_four}

pub format_v4_injective : (a b : ℕ) → a < 2 ^ 32 → b < 2 ^ 32 → format_v4 a ≡ format_v4 b → a ≡ b
format_v4_injective a b ha hb e = ground (arith, parse_v4-format_v4 a ha, parse_v4-format_v4 b hb)

-- Peer 0 has the offset 2; the others count down from the broadcast address.
abbrev pub gateway_offset : ℕ → ℕ → ℕ
gateway_offset h index = if eqb index 0 then 2 else 2 ^ h - 1 - index

abbrev gateway_rule : ℕ → ℕ → ℕ → Result NetError Text
gateway_rule base h index =
    if eqb index 0
    then ok (format_v4 (base + 2))
    else if leb (2 ^ h - 3) index
    then err (no_peer_gateway index)
    else ok (format_v4 (base + (2 ^ h - 1 - index)))

module _ (cidr : Text) (net : Network) (base h : ℕ) (parsed : parse_cidr cidr ≡ some net)
    (v : IsV4 net base h) (wide : 2 ≤ h) where
  peer_gateway_lem :
      (index : ℕ)
      → index < 2 ^ 32
      → peer_gateway_address_for_cidr cidr index ≡ gateway_rule base h index
  unfolding peer_gateway_address_for_cidr
  peer_gateway_lem index lt =
      let w : net.bits - net.prefix ≡ h = omega arith in
      let i : u32 index ≡ index = omega arith in
      let m = pow_four h (omega arith) wide in
      let room = IsV4-room v in
      let two : u32 (base + 2) ≡ base + 2 = omega arith in
      let down : u32 (base + (2 ^ h - 1 - index)) ≡ base + (2 ^ h - 1 - index) = omega arith in
      rw (parsed, to4_of_IsV4 v)
        (rw (w, broadcast_offset_lem h (omega arith), i, two, down) (ground arith))

  gateway_of_ok :
      (index : ℕ) (a : Text)
      → index < 2 ^ 32
      → peer_gateway_address_for_cidr cidr index ≡ ok a
      → (a ≡ format_v4 (base + gateway_offset h index))
        × (2 ≤ gateway_offset h index)
        × (gateway_offset h index + 1 < 2 ^ h)
        × (index + gateway_offset h index ≤ 2 ^ h)
  gateway_of_ok index a lt e =
      let r : gateway_rule base h index ≡ ok a = sym (peer_gateway_lem index lt) ∙ e in
      let m = pow_four h (omega arith) wide in ground arith

  gateway_unique :
      (i j : ℕ) (a : Text)
      → i < 2 ^ 32
      → j < 2 ^ 32
      → peer_gateway_address_for_cidr cidr i ≡ ok a
      → peer_gateway_address_for_cidr cidr j ≡ ok a
      → i ≡ j
  gateway_unique i j a li lj ei ej =
      let ri : gateway_rule base h i ≡ ok a = sym (peer_gateway_lem i li) ∙ ei in
      let rj : gateway_rule base h j ≡ ok a = sym (peer_gateway_lem j lj) ∙ ej in
      let (pi, gi, hi, si) = gateway_of_ok i a li ei in
      let (pj, gj, hj, sj) = gateway_of_ok j a lj ej in
      let room = IsV4-room v in
      let same =
        format_v4_injective (base + gateway_offset h i) (base + gateway_offset h j) (omega arith)
          (omega arith) (sym pi ∙ pj) in
      ground (arith, same)

wide_of_ok :
    (cidr : Text) (net : Network) (index : ℕ) (a : Text)
    → parse_cidr cidr ≡ some net
    → peer_gateway_address_for_cidr cidr index ≡ ok a
    → (net.bits ≡ 32) × (net.prefix ≤ 30)
unfolding peer_gateway_address_for_cidr
wide_of_ok cidr net index a p e = ground arith

parsed_of_ok :
    (cidr : Text) (index : ℕ) (a : Text)
    → peer_gateway_address_for_cidr cidr index ≡ ok a
    → (net : Network) × (parse_cidr cidr ≡ some net)
unfolding peer_gateway_address_for_cidr
parsed_of_ok cidr index a e =
    let (net, found, rest) = bind-eq-ok (or_err (parse_cidr cidr) bad_cidr) _ e in
    (net, ground (arith, found))

-- Two peers of one PodCIDR never have the same gateway address.
pub peer_gateway_address_injective :
    (cidr : Text) (i j : ℕ) (a : Text)
    → i < 2 ^ 32
    → j < 2 ^ 32
    → peer_gateway_address_for_cidr cidr i ≡ ok a
    → peer_gateway_address_for_cidr cidr j ≡ ok a
    → i ≡ j
peer_gateway_address_injective cidr i j a li lj ei ej =
    let (net, parsed) = parsed_of_ok cidr i a ei in
    let (b, p) = wide_of_ok cidr net i a parsed ei in
    gateway_unique cidr net (base_of net) (host_bits_of net) parsed
      (parse_cidr-IsV4 cidr net parsed b) (omega arith) i j a li lj ei ej
