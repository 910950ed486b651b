-- ===== src/Network/Allocation.antt =====
-- Which addresses the allocators hand out, and when they find none.
use maclet.Prelude.{
  ℕ, zero, suc, ◌+◌, ◌-◌, ◌%◌, ◌^◌, ◌≤◌, ◌<◌, ◌≡◌, refl, ◌∙◌, Bool, true, false, some, arith, ltb,
  leb, eqb, ◌||◌, ◌↔◌, eqb_iff, ltb→lt, leb→le, if◌then◌else◌, Result, ok, err, bind-eq-ok, sym,
  or_err, Bool-cases, inl, inr,
}
use maclet.Prelude.Text.{Text}
use maclet.Net.V4.{format_v4}
use maclet.Net.Cidr.{parse_cidr, to4, Network}
use maclet.Net.Laws.{to4-mapped, IsV4, base_of, host_bits_of, parse_cidr-IsV4}
use maclet.Network.Addresses.{
  NetError, bad_cidr, exhausted, unsupported_range, offset_unavailable, u32, broadcast_offset,
  workload_ip_for_offset, first_free, first_available_workload_ip,
}

-- An address that a workload may have: the offset is past the network address, the bridge and the
-- gateway, and below the broadcast address.
pub record IsWorkloadAddress (cidr : Text) (net : Network) (offset : ℕ) (ip : Text) : Type 0 where
  pub parsed : parse_cidr cidr ≡ some net
  pub v4 : IsV4 net (base_of net) (host_bits_of net)
  pub small : 2 ≤ host_bits_of net
  pub large : host_bits_of net ≤ 16
  pub above : 3 ≤ offset
  pub below : offset < 2 ^ host_bits_of net - 1
  pub printed : ip ≡ format_v4 (base_of net + offset)

-- 2 ^ h divides 2 ^ 32.
holds_below : (ℕ → Bool) → ℕ → Bool
holds_below test zero = true
holds_below test (suc bound) = if test bound then holds_below test bound else false

holds_below_sound :
    (test : ℕ → Bool) (bound k : ℕ) → holds_below test bound ≡ true → k < bound → test k ≡ true
unfolding holds_below
holds_below_sound test zero k all lt = absurd (omega arith)
holds_below_sound test (suc bound) k all lt = ground (arith, holds_below_sound test bound k)

powers_divide : holds_below (λ h. eqb (2 ^ 32 % 2 ^ h) 0) 33 ≡ true
unfolding holds_below
powers_divide = refl

powers_le : holds_below (λ h. leb (2 ^ h) (2 ^ 32)) 33 ≡ true
unfolding holds_below
powers_le = refl

powers_pos : holds_below (λ h. ltb 0 (2 ^ h)) 33 ≡ true
unfolding holds_below
powers_pos = refl

aligned_room : (m n base : ℕ) → 0 < m → n % m ≡ 0 → base % m ≡ 0 → base < n → base + m ≤ n
aligned_room m n base pos hn hb lt = grind arith

broadcast_offsets : holds_below (λ h. eqb (broadcast_offset h) (2 ^ h - 1)) 33 ≡ true
unfolding holds_below
broadcast_offsets = refl

pub broadcast_offset_lem : (h : ℕ) → h ≤ 32 → broadcast_offset h ≡ 2 ^ h - 1
broadcast_offset_lem h le = (eqb_iff (broadcast_offset h) (2 ^ h - 1)).0 (
    holds_below_sound (λ k. eqb (broadcast_offset k) (2 ^ k - 1)) 33 h broadcast_offsets
      (omega arith))

pub pow_pos : (h : ℕ) → h ≤ 32 → 0 < 2 ^ h
pow_pos h le =
    ltb→lt 0 (2 ^ h) (holds_below_sound (λ k. ltb 0 (2 ^ k)) 33 h powers_pos (omega arith))

pub pow_le : (h : ℕ) → h ≤ 32 → 2 ^ h ≤ 2 ^ 32
pow_le h le =
    leb→le (2 ^ h) (2 ^ 32)
      (holds_below_sound (λ k. leb (2 ^ k) (2 ^ 32)) 33 h powers_le (omega arith))

pow_divides : (h : ℕ) → h ≤ 32 → 2 ^ 32 % 2 ^ h ≡ 0
pow_divides h le =
    (eqb_iff (2 ^ 32 % 2 ^ h) 0).0
      (holds_below_sound (λ k. eqb (2 ^ 32 % 2 ^ k) 0) 33 h powers_divide (omega arith))

powers_four : holds_below (λ h. ltb h 2 || leb 4 (2 ^ h)) 33 ≡ true
unfolding holds_below
powers_four = refl

pub pow_four : (h : ℕ) → h ≤ 32 → 2 ≤ h → 4 ≤ 2 ^ h
pow_four h le s =
    ground (arith, holds_below_sound (λ k. ltb k 2 || leb 4 (2 ^ k)) 33 h powers_four (omega arith))

-- The addresses of a 32-bit network do not wrap around.
pub IsV4-room : {net : Network} {base h : ℕ} → IsV4 net base h → base + 2 ^ h ≤ 2 ^ 32
IsV4-room {net} {base} {h} v =
    aligned_room (2 ^ h) (2 ^ 32) base (pow_pos h (omega arith)) (pow_divides h (omega arith))
      v.aligned v.fits

pub to4_of_IsV4 : {net : Network} {base h : ℕ} → IsV4 net base h → to4 net.ip ≡ some base
to4_of_IsV4 {net} {base} v = rw v.ip (to4-mapped base v.fits)

-- What the code computes for an offset, once the CIDR is a 32-bit network.
abbrev offset_rule : ℕ → ℕ → ℕ → Result NetError Text
offset_rule base h offset =
    if ltb h 2 || ltb 16 h
    then err unsupported_range
    else if ltb offset 3 || leb (2 ^ h - 1) offset
    then err (offset_unavailable offset)
    else ok (format_v4 (base + offset))

no_wrap :
    (base h offset : ℕ)
    → base + 2 ^ h ≤ 2 ^ 32
    → leb (2 ^ h - 1) offset ≡ false
    → u32 (base + offset) ≡ base + offset
no_wrap base h offset room e = ground arith

module _ (cidr : Text) (net : Network) (base h : ℕ) (parsed : parse_cidr cidr ≡ some net)
    (v : IsV4 net base h) where
  width : net.bits - net.prefix ≡ h
  width = omega arith

  workload_ip_for_offset_lem :
      (offset : ℕ) → workload_ip_for_offset cidr offset ≡ offset_rule base h offset
  unfolding workload_ip_for_offset
  workload_ip_for_offset_lem offset =
      rw (parsed, to4_of_IsV4 v, width, v.bits, broadcast_offset_lem h (omega arith))
        (ground (arith, no_wrap base h offset (IsV4-room v)))

  -- A workload address of this network, by its offset.
  abbrev pub HasOffset : ℕ → Type 0
  HasOffset offset = (2 ≤ h) × (h ≤ 16) × (3 ≤ offset) × (offset < 2 ^ h - 1)

  pub offset_of_ok :
      (offset : ℕ) (ip : Text)
      → workload_ip_for_offset cidr offset ≡ ok ip
      → HasOffset offset × (ip ≡ format_v4 (base + offset))
  offset_of_ok offset ip e =
      let e' : offset_rule base h offset ≡ ok ip = sym (workload_ip_for_offset_lem offset) ∙ e in
      ((ground arith, ground arith, ground arith, ground arith), ground arith)

  pub ok_of_offset :
      (offset : ℕ)
      → HasOffset offset
      → workload_ip_for_offset cidr offset ≡ ok (format_v4 (base + offset))
  ok_of_offset offset o = workload_ip_for_offset_lem offset ∙ ground arith

  module _ (taken : Text → Bool) where
    -- The first offset from `offset` whose address is not taken.
    abbrev pub IsFirst : ℕ → ℕ → Text → Type 0
    IsFirst offset k ip =
        HasOffset k
        × (offset ≤ k)
        × (ip ≡ format_v4 (base + k))
        × (taken ip ≡ false)
        × ((j : ℕ) → offset ≤ j → j < k → taken (format_v4 (base + j)) ≡ true)

    taken_from :
        (offset k : ℕ)
        → taken (format_v4 (base + offset)) ≡ true
        → ((j : ℕ) → offset + 1 ≤ j → j < k → taken (format_v4 (base + j)) ≡ true)
        → (j : ℕ) → offset ≤ j
        → j < k
        → taken (format_v4 (base + j)) ≡ true
    taken_from offset k here later j lo hi = elim (Bool-cases (eqb j offset)) [
      | inl same ↦ let e : j ≡ offset = ground arith in rw e here
      | inr other ↦ later j (ground arith) hi
    ]

    pub first_free_sound :
        (rounds offset : ℕ) (ip : Text)
        → first_free taken cidr rounds offset ≡ ok ip
        → (k : ℕ) × IsFirst offset k ip
    unfolding first_free
    first_free_sound zero offset ip e = cc
    first_free_sound (suc rounds) offset ip e =
        let (here, found, rest) = bind-eq-ok (workload_ip_for_offset cidr offset) _ e in
        let (o, printed) = offset_of_ok offset here found in
        elim (Bool-cases (taken here)) [
          | inl used ↦
              let (k, (o', le, p, free, before)) =
                first_free_sound rounds (offset + 1) ip (rw used at rest) in
              (k, (o', omega arith, p, free, taken_from offset k (rw (← printed) used) before))
          | inr free ↦
              let same : here ≡ ip = ground arith in
              (offset, (o, omega arith, cc, cc, λ j lo hi. absurd (omega arith)))
        ]

    -- The loop fails exactly when it has met taken addresses only.
    first_free_exhausted :
        (rounds offset : ℕ)
        → 2 ≤ h
        → h ≤ 16
        → 3 ≤ offset
        → offset + rounds ≤ 2 ^ h - 1
        → (first_free taken cidr rounds offset ≡ err exhausted)
          ↔ ((j : ℕ) → offset ≤ j → j < offset + rounds → taken (format_v4 (base + j)) ≡ true)
    unfolding first_free
    first_free_exhausted zero offset s l a b = (λ _ j lo hi. absurd (omega arith), λ _. refl)
    first_free_exhausted (suc rounds) offset s l a b =
        let (to, from) = first_free_exhausted rounds (offset + 1) s l (omega arith) (omega arith) in
        rw (ok_of_offset offset (s, l, a, omega arith))
          (elim (Bool-cases (taken (format_v4 (base + offset)))) [
            | inl used ↦ rw used (
              λ e j lo hi.
                  taken_from offset (offset + suc rounds) used
                    (λ i lo' hi'. to e i lo' (omega arith)) j lo hi,
              λ all. from (λ j lo hi. all j (omega arith) (omega arith)),
            )
            | inr free ↦ rw free (λ e. cc, λ all. cc (all offset (omega arith) (omega arith), free))
          ])

not_lt : {a b : ℕ} → a ≤ b → ltb b a ≡ false
not_lt le = ground arith

module _ (used : Text → Bool) (cidr : Text) where
  -- The address that the allocator returns is a workload address of the PodCIDR, it is not used, and
  -- every workload address before it is.
  pub first_available_workload_ip_sound :
      (ip : Text)
      → first_available_workload_ip used cidr ≡ ok ip
      → (net : Network) × (offset : ℕ) × IsWorkloadAddress cidr net offset ip
        × (used ip ≡ false)
        × ((j : ℕ) → 3 ≤ j → j < offset → used (format_v4 (base_of net + j)) ≡ true)
  unfolding first_available_workload_ip
  first_available_workload_ip_sound ip e =
      let (net, found, rest) = bind-eq-ok (or_err (parse_cidr cidr) bad_cidr) _ e in
      let parsed : parse_cidr cidr ≡ some net = ground arith in
      let v = parse_cidr-IsV4 cidr net parsed (ground arith) in
      let (k, (o, le, printed, free, before)) =
        first_free_sound cidr net (base_of net) (host_bits_of net) parsed v used
          (broadcast_offset (net.bits - net.prefix) - 3) 3 ip (ground arith) in
      (
        net,
        k,
        record {
          parsed = parsed;
          v4 = v;
          small = o.0;
          large = o.1;
          above = o.2;
          below = o.3;
          printed = printed;
        },
        free,
        before,
      )

  -- It fails for want of addresses exactly when each of them is used.
  pub first_available_workload_ip_exhausted :
      (net : Network)
      → parse_cidr cidr ≡ some net
      → net.bits ≡ 32
      → 2 ≤ host_bits_of net
      → host_bits_of net ≤ 16
      → (first_available_workload_ip used cidr ≡ err exhausted) ↔ (
          (j : ℕ)
          → 3 ≤ j
          → j < 2 ^ host_bits_of net - 1
          → used (format_v4 (base_of net + j)) ≡ true)
  unfolding first_available_workload_ip
  first_available_workload_ip_exhausted net parsed b s l =
      let v = parse_cidr-IsV4 cidr net parsed b in
      let (to, from) =
        first_free_exhausted cidr net (base_of net) (host_bits_of net) parsed v used
          (2 ^ host_bits_of net - 1 - 3) 3 s l (omega arith)
          (omega (arith, pow_four (host_bits_of net))) in
      rw (parsed, b, not_lt s, not_lt l, broadcast_offset_lem (host_bits_of net) (omega arith))
        (λ e j lo hi. to e j lo (omega arith), λ all. from (λ j lo hi. all j lo (omega arith)))
