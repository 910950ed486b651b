-- ===== src/Net/V4.antt =====
-- Dotted IPv4 addresses: the parser and the printer of Go's netip, and that they fit.
use maclet.Prelude.{
  ℕ, ◌+◌, ◌-◌, ◌*◌, ◌/◌, ◌%◌, ◌^◌, ◌<◌, ◌≡◌, ap, ◌∙◌, Bool, true, false, ◌&&◌, ◌||◌, Option, none,
  some, [], ◌∷◌, ◌++◌, arith, ltb, leb, eqb, if◌then◌else◌,
}
use maclet.Prelude.Text.{Text}

abbrev pub is_digit : ℕ → Bool
is_digit c = leb b'0' c && leb c b'9'

abbrev pub is_end : Text → Bool
is_end [] = true
is_end (c ∷ s) = false

-- netip.parseIPv4Fields: `pos` fields are read and make `acc`; `val` is the field being read, of
-- `dig` digits.
unfoldable pub fields : ℕ → ℕ → ℕ → ℕ → Text → Option ℕ
fields pos acc val dig [] = if eqb pos 3 then some (acc * 256 + val) else none
fields pos acc val dig (c ∷ s) =
    let more = fields pos acc (val * 10 + (c - 48)) (dig + 1) s in
    let next = fields (pos + 1) (acc * 256 + val) 0 0 s in
    if is_digit c
    then (if eqb dig 1 && eqb val 0 || ltb 255 (val * 10 + (c - 48)) then none else more)
    else if eqb c b'.'
    then (if eqb dig 0 || is_end s || eqb pos 3 then none else next)
    else none

unfoldable pub parse_v4 : Text → Option ℕ
unfolding fields
parse_v4 s = fields 0 0 0 0 s

-- appendDecimal of netip
unfoldable pub octet : ℕ → Text
octet x =
    if ltb x 10
    then (b'0' + x) ∷ []
    else if ltb x 100
    then (b'0' + x / 10) ∷ (b'0' + x % 10) ∷ []
    else (b'0' + x / 100) ∷ (b'0' + x / 10 % 10) ∷ (b'0' + x % 10) ∷ []

-- IP.String of an IPv4 address
unfoldable pub format_v4 : ℕ → Text
unfolding octet
format_v4 v =
    octet (v / 2 ^ 24 % 256)
    ++ b'.'
      ∷ (octet (v / 2 ^ 16 % 256) ++ b'.' ∷ (octet (v / 2 ^ 8 % 256) ++ b'.' ∷ octet (v % 256)))

is_end-octet : (x : ℕ) (r : Text) → is_end (octet x ++ r) ≡ false
unfolding octet
is_end-octet x r = ground arith

is_end-octet_self : (x : ℕ) → is_end (octet x) ≡ false
unfolding octet
is_end-octet_self x = ground arith

fields-octet_dot :
    (pos acc x : ℕ) (r : Text)
    → x < 256
    → pos < 3
    → is_end r ≡ false
    → fields pos acc 0 0 (octet x ++ b'.' ∷ r) ≡ fields (pos + 1) (acc * 256 + x) 0 0 r
unfolding fields octet
fields-octet_dot pos acc x r h k e = ground arith

fields-octet_end : (acc x : ℕ) → x < 256 → fields 3 acc 0 0 (octet x) ≡ some (acc * 256 + x)
unfolding fields octet
fields-octet_end acc x h = ground arith

octets_value :
    (v : ℕ)
    → v < 2 ^ 32
    → (((0 * 256 + v / 2 ^ 24 % 256) * 256 + v / 2 ^ 16 % 256) * 256 + v / 2 ^ 8 % 256) * 256
        + v % 256
      ≡ v
octets_value v h = omega arith

-- ParseIP reads back every IPv4 address that String prints.
pub parse_v4-format_v4 : (v : ℕ) → v < 2 ^ 32 → parse_v4 (format_v4 v) ≡ some v
unfolding parse_v4 format_v4
parse_v4-format_v4 v h =
    let r₃ = octet (v % 256) in
    let r₂ = octet (v / 2 ^ 8 % 256) ++ b'.' ∷ r₃ in
    let r₁ = octet (v / 2 ^ 16 % 256) ++ b'.' ∷ r₂ in
    fields-octet_dot 0 0 (v / 2 ^ 24 % 256) r₁ (omega arith) (omega arith)
      (is_end-octet (v / 2 ^ 16 % 256) (b'.' ∷ r₂))
    ∙ fields-octet_dot 1 _ (v / 2 ^ 16 % 256) r₂ (omega arith) (omega arith)
        (is_end-octet (v / 2 ^ 8 % 256) (b'.' ∷ r₃))
    ∙ fields-octet_dot 2 _ (v / 2 ^ 8 % 256) r₃ (omega arith) (omega arith)
        (is_end-octet_self (v % 256))
    ∙ fields-octet_end _ (v % 256) (omega arith)
    ∙ ap some (octets_value v h)

-- What the first `pos` fields make is below this.
abbrev bound : ℕ → ℕ
bound pos =
    if eqb pos 0
    then 1
    else if eqb pos 1
    then 2 ^ 8
    else if eqb pos 2
    then 2 ^ 16
    else if eqb pos 3
    then 2 ^ 24
    else 0

fields-lt :
    (pos acc val dig : ℕ) (s : Text) (v : ℕ)
    → val < 256
    → acc < bound pos
    → fields pos acc val dig s ≡ some v
    → v < 2 ^ 32
unfolding fields
fields-lt pos acc val dig [] v hv ha e = ground arith
fields-lt pos acc val dig (c ∷ s) v hv ha e = ground (
  arith,
  fields-lt pos acc (val * 10 + (c - 48)) (dig + 1) s v,
  fields-lt (pos + 1) (acc * 256 + val) 0 0 s v,
)
