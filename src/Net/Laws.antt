-- ===== src/Net/Laws.antt =====
-- What ParseIP, To4 and ParseCIDR return: printed addresses are read back, and networks are aligned.
use mathlib.Core.Logic.{inl, inr}
use maclet.Prelude.{
  ℕ, ◌+◌, ◌-◌, ◌/◌, ◌%◌, ◌^◌, ◌<◌, ◌≡◌, ◌∙◌, subst, Option, none, some, ◌∷◌, ◌++◌, arith,
  Option-cases,
}
use maclet.Prelude.Text.{Text, cut}
use maclet.Net.V4.{octet, parse_v4, format_v4, parse_v4-format_v4}
use maclet.Net.Cidr.{
  mapped, masked, parse_ip, parse_ip_by, to4, Network, parse_cidr, network_of, mask_number,
}

pub to4-mapped : (v : ℕ) → v < 2 ^ 32 → to4 (mapped v) ≡ some v
unfolding to4
to4-mapped v h = ground arith

parse_ip_by-octet :
    (s r : Text) (x : ℕ)
    → x < 256
    → parse_ip_by s (octet x ++ b'.' ∷ r)
      ≡ elim (parse_v4 s) [ none ↦ none | some v ↦ some (mapped v) ]
unfolding parse_ip_by octet
parse_ip_by-octet s r x h = ground arith

-- ParseIP reads an IPv4 address that String printed as its 16-byte form.
pub parse_ip-format_v4 : (v : ℕ) → v < 2 ^ 32 → parse_ip (format_v4 v) ≡ some (mapped v)
unfolding parse_ip
parse_ip-format_v4 v h =
    unfold format_v4 in
    parse_ip_by-octet (format_v4 v) _ (v / 2 ^ 24 % 256) (omega arith) ∙ rw (parse_v4-format_v4 v h)

-- A 32-bit network: its first address, and its host bits.
pub record IsV4 (net : Network) (base host_bits : ℕ) : Type 0 where
  pub ip : net.ip ≡ mapped base
  pub bits : net.bits ≡ 32
  pub prefix : net.prefix + host_bits ≡ 32
  pub aligned : base % 2 ^ host_bits ≡ 0
  pub fits : base < 2 ^ 32

masked_aligned : (m n : ℕ) → (n - n % m) % m ≡ 0
masked_aligned m n = grind arith

network_of-IsV4 :
    (addr : Text) (n a : ℕ) (net : Network)
    → network_of addr n (some a) ≡ some net
    → net.bits ≡ 32
    → IsV4 net (masked (32 - n) (a % 2 ^ 32)) (32 - n)
unfolding network_of
network_of-IsV4 addr n a net e b = record {
  ip = ground arith;
  bits = b;
  prefix = ground arith;
  aligned = masked_aligned (2 ^ (32 - n)) (a % 2 ^ 32);
  fits = omega arith;
}

abbrev pub base_of : Network → ℕ
base_of net = net.ip % 2 ^ 32

abbrev pub host_bits_of : Network → ℕ
host_bits_of net = 32 - net.prefix

IsV4-self :
    (net : Network) (base h : ℕ) → IsV4 net base h → IsV4 net (base_of net) (host_bits_of net)
IsV4-self net base h v =
    let eb : base ≡ base_of net = rw v.ip (omega arith) in
    let eh : h ≡ host_bits_of net = omega arith in
    subst (λ b. IsV4 net b (host_bits_of net)) eb (subst (λ k. IsV4 net base k) eh v)

network_of-IsV4_self :
    (addr : Text) (n : ℕ) (o : Option ℕ) (net : Network)
    → network_of addr n o ≡ some net
    → net.bits ≡ 32
    → IsV4 net (base_of net) (host_bits_of net)
network_of-IsV4_self addr n none net e b = unfold network_of in cc
network_of-IsV4_self addr n (some a) net e b = IsV4-self net _ _ (network_of-IsV4 addr n a net e b)

-- A 32-bit network that ParseCIDR returns is aligned on its host bits.
pub parse_cidr-IsV4 :
    (s : Text) (net : Network)
    → parse_cidr s ≡ some net
    → net.bits ≡ 32
    → IsV4 net (base_of net) (host_bits_of net)
parse_cidr-IsV4 s net e b = elim (Option-cases (cut b'/' s).1) [
  | inl missing ↦ absurd (unfold parse_cidr in ground (arith, e))
  | inr (mask, found) ↦ elim (Option-cases (mask_number mask)) [
    | inl bad ↦ absurd (unfold parse_cidr in ground (arith, e))
    | inr (n, good) ↦
        network_of-IsV4_self (cut b'/' s).0 n (parse_ip (cut b'/' s).0) net
          (unfold parse_cidr in ground arith) b
  ]
]
