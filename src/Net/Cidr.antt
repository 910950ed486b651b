-- ===== src/Net/Cidr.antt =====
-- ParseIP, To4, Equal, ParseCIDR and IPNet.Contains.
use maclet.Prelude.{
  ℕ, ◌+◌, ◌-◌, ◌*◌, ◌/◌, ◌%◌, ◌^◌, ◌≡◌, refl, Bool, true, false, Option, none, some, [], ◌∷◌, ltb,
  leb, eqb, if◌then◌else◌,
}
use maclet.Prelude.Text.{Text, codes, cut, contains_char}
use maclet.Net.V4.{is_digit, is_end, parse_v4}
use maclet.Net.V6.{parse_v6}

-- The 16-byte form of an IPv4 address.
abbrev pub mapped : ℕ → ℕ
mapped v = 0xFFFF * 2 ^ 32 + v

-- netip.ParseAddr looks for the first of `.`, `:` and `%`; ParseIP refuses zones.
unfoldable pub parse_ip_by : Text → Text → Option ℕ
parse_ip_by s [] = none
parse_ip_by s (c ∷ t) =
    let more = parse_ip_by s t in
    if eqb c b'.'
    then elim (parse_v4 s) [ none ↦ none | some v ↦ some (mapped v) ]
    else if eqb c b':'
    then (if contains_char b'%' s then none else parse_v6 s)
    else if eqb c b'%'
    then none
    else more

unfoldable pub parse_ip : Text → Option ℕ
unfolding parse_ip_by
parse_ip s = parse_ip_by s s

-- IP.To4
unfoldable pub to4 : ℕ → Option ℕ
to4 n = if eqb (n / 2 ^ 32) 0xFFFF then some (n % 2 ^ 32) else none

-- IP.Equal: the 4-byte and the 16-byte form of an address are equal.
abbrev pub ip_equal : Option ℕ → Option ℕ → Bool
ip_equal (some a) (some b) = eqb a b
ip_equal none none = true
ip_equal none (some b) = false
ip_equal (some a) none = false

pub record Network : Type 0 where
  pub ip : ℕ
  pub prefix : ℕ
  pub bits : ℕ

-- net.dtoi, where the whole text has to be digits
unfoldable pub dtoi : ℕ → Text → Option ℕ
dtoi n [] = some n
dtoi n (c ∷ s) =
    let rest = dtoi (n * 10 + (c - b'0')) s in
    if is_digit c then (if leb 0xFFFFFF (n * 10 + (c - b'0')) then none else rest) else none

unfoldable pub mask_number : Text → Option ℕ
mask_number s = if is_end s then none else dtoi 0 s

abbrev pub masked : ℕ → ℕ → ℕ
masked host_bits n = n - n % 2 ^ host_bits

-- The network of an address that was written with a dot (32 bits) or with colons (128).
unfoldable pub network_of : Text → ℕ → Option ℕ → Option Network
network_of addr n none = none
network_of addr n (some a) =
    if contains_char b':' addr
    then (if ltb 128 n
        then none
        else some (record { ip = masked (128 - n) a; prefix = n; bits = 128 }))
    else if ltb 32 n
    then none
    else some (record { ip = mapped (masked (32 - n) (a % 2 ^ 32)); prefix = n; bits = 32 })

-- net.ParseCIDR, its network
unfoldable pub parse_cidr : Text → Option Network
unfolding mask_number dtoi network_of
parse_cidr s = elim (cut b'/' s).1 [
  | none ↦ none
  | some mask ↦ elim (mask_number mask) [
    | none ↦ none
    | some n ↦ network_of (cut b'/' s).0 n (parse_ip (cut b'/' s).0)
  ]
]

-- IPNet.Contains
unfoldable pub network_contains : Network → ℕ → Bool
network_contains net n = elim (to4 net.ip) [
  | none ↦ elim (to4 n) [ none ↦ eqb (masked (net.bits - net.prefix) n) net.ip | some a ↦ false ]
  | some base ↦ elim (to4 n) [
    | none ↦ false
    | some a ↦ eqb (masked (net.bits - net.prefix) a) (masked (net.bits - net.prefix) base)
  ]
]

cidr_runs :
    parse_cidr (codes "10.42.4.7/24")
    ≡ some (record { ip = mapped 170525696; prefix = 24; bits = 32 })
unfolding parse_cidr parse_ip parse_v4 cut contains_char
cidr_runs = refl

ip_runs : parse_ip (codes "fd00::1:2") ≡ some (0xfd00 * 2 ^ 112 + 0x10002)
unfolding parse_ip parse_v6 contains_char
ip_runs = refl
