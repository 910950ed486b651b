-- ===== src/Net/V6.antt =====
-- IPv6 addresses: the parser of Go's netip (parseIPv6), without zones.
use maclet.Prelude.{
  ℕ, zero, suc, ◌+◌, ◌-◌, ◌*◌, ◌/◌, ◌%◌, Bool, true, false, ◌&&◌, ◌||◌, Option, none, some, List,
  [], ◌∷◌, ◌++◌, ltb, leb, eqb, length, take, drop, replicate, if◌then◌else◌,
}
use maclet.Prelude.Text.{Text}
use maclet.Net.V4.{is_digit, is_end, parse_v4}

hex : ℕ → Option ℕ
hex c =
    if is_digit c
    then some (c - b'0')
    else if leb b'a' c && leb c b'f'
    then some (c - b'a' + 10)
    else if leb b'A' c && leb c b'F'
    then some (c - b'A' + 10)
    else none

-- The hex digits in front, at most four: how many, their value, and what follows.
hex_run : ℕ → ℕ → Text → Option (ℕ × ℕ × Text)
hex_run off acc [] = some (off, acc, [])
hex_run off acc (c ∷ s) = elim (hex c) [
  | none ↦ some (off, acc, c ∷ s)
  | some d ↦ elim (ltb 3 off) [ true ↦ none | false ↦ hex_run (off + 1) (acc * 16 + d) s ]
]

-- The groups that are read, where `::` stood among them, and the text that is left.
record Groups : Type 0 where
  groups : List ℕ
  ellipsis : Option ℕ
  left : Text

abbrev is_some {ℓ} : {A : Type ℓ} → Option A → Bool
is_some none = false
is_some (some a) = true

-- A dotted IPv4 address as the last two groups.
trailing_v4 : List ℕ → Option ℕ → Text → Option Groups
trailing_v4 gs ell s = if not_last || ltb 6 (length gs) then none else elim (parse_v4 s) [
  | none ↦ none
  | some v ↦
      some (record { groups = gs ++ (v / 65536) ∷ v % 65536 ∷ []; ellipsis = ell; left = [] })
]
  where
    not_last : Bool
    not_last = elim ell [
      | none ↦ elim (eqb (length gs) 6) [ true ↦ false | false ↦ true ]
      | some e ↦ false
    ]

-- What follows a group: the end, a dot, a colon and more, or `::`.
after_group :
    (List ℕ → Option ℕ → Text → Option Groups) → List ℕ → Option ℕ → Text → ℕ → Text → Option Groups
after_group rec gs ell s acc [] =
    some (record { groups = gs ++ acc ∷ []; ellipsis = ell; left = [] })
after_group rec gs ell s acc (c ∷ []) = if eqb c b'.' then trailing_v4 gs ell s else none
after_group rec gs ell s acc (c ∷ d ∷ t) =
    if eqb c b'.'
    then trailing_v4 gs ell s
    else if eqb c b':'
    then (if eqb d b':'
        then (if is_some ell
            then none
            else if is_end t
            then some
                (record { groups = gs ++ acc ∷ []; ellipsis = some (length gs + 1); left = [] })
            else rec (gs ++ acc ∷ []) (some (length gs + 1)) t)
        else rec (gs ++ acc ∷ []) ell (d ∷ t))
    else none

read_groups : ℕ → List ℕ → Option ℕ → Text → Option Groups
read_groups zero gs ell s = some (record { groups = gs; ellipsis = ell; left = s })
read_groups (suc f) gs ell s = elim (hex_run 0 0 s) [
  | none ↦ none
  | some (off, acc, rest) ↦ elim (eqb off 0) [
    | true ↦ none
    | false ↦ after_group (read_groups f) gs ell s acc rest
  ]
]

value_of : ℕ → List ℕ → ℕ
value_of acc [] = acc
value_of acc (g ∷ gs) = value_of (acc * 65536 + g) gs

-- `::` stands for at least one group of zeros.
expand : Groups → Option ℕ
expand g =
    if is_end g.left
    then (if ltb (length g.groups) 8
        then elim g.ellipsis [
          | none ↦ none
          | some e ↦
              some (
                value_of 0
                  (take e g.groups ++ replicate (8 - length g.groups) 0 ++ drop e g.groups))
        ]
        else if is_some g.ellipsis
        then none
        else some (value_of 0 g.groups))
    else none

finish : Option Groups → Option ℕ
finish none = none
finish (some g) = expand g

starts_ellipsis : Text → Option Text
starts_ellipsis (c ∷ d ∷ t) = if eqb c b':' && eqb d b':' then some t else none
starts_ellipsis _ = none

unfoldable pub parse_v6 : Text → Option ℕ
unfolding hex hex_run trailing_v4 after_group read_groups value_of expand finish starts_ellipsis
parse_v6 s = elim (starts_ellipsis s) [
  | none ↦ finish (read_groups 8 [] none s)
  | some t ↦ if is_end t then some 0 else finish (read_groups 8 [] (some 0) t)
]
