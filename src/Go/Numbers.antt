-- ===== src/Go/Numbers.antt =====
-- strconv.Atoi on 64-bit integers, strconv.Itoa and strconv.ParseUint.
use maclet.Prelude.{
  ℕ, zero, suc, ◌+◌, ◌-◌, ◌*◌, ◌^◌, ◌&&◌, Option, none, some, [], ◌∷◌, eqb, leb, if◌then◌else◌,
}
use maclet.Prelude.Text.{Text, itoa}

-- `negsuc n` is -(n + 1).
pub data ℤ : Type 0 where
  pos negsuc : ℕ → ℤ

unfoldable pub digits : ℕ → Text → Option ℕ
digits n [] = some n
digits n (c ∷ s) =
    let rest = digits (n * 10 + (c - b'0')) s in if leb b'0' c && leb c b'9' then rest else none

abbrev negated : ℕ → ℤ
negated zero = pos zero
negated (suc n) = negsuc n

abbrev within : Option ℕ → ℕ → (ℕ → ℤ) → Option ℤ
within none limit f = none
within (some n) limit f = if leb n limit then some (f n) else none

abbrev no_sign : Text → Option ℕ
no_sign [] = none
no_sign (c ∷ s) = digits 0 (c ∷ s)

unfoldable pub atoi : Text → Option ℤ
unfolding digits
atoi [] = none
atoi (c ∷ s) =
    if eqb c b'-'
    then within (no_sign s) (2 ^ 63) negated
    else if eqb c b'+'
    then within (no_sign s) (2 ^ 63 - 1) pos
    else within (digits 0 (c ∷ s)) (2 ^ 63 - 1) pos

unfoldable pub format_int : ℤ → Text
unfolding itoa
format_int (pos n) = itoa n
format_int (negsuc n) = b'-' ∷ itoa (n + 1)

-- strconv.ParseUint with base 10 and 64 bits
abbrev below_limit : Option ℕ → Option ℕ
below_limit none = none
below_limit (some n) = if leb n (2 ^ 64 - 1) then some n else none

unfoldable pub parse_uint : Text → Option ℕ
unfolding digits
parse_uint s = below_limit (no_sign s)
