-- ===== src/Prelude/Text.antt =====
-- Text as a list of code points, and the functions of Go's `strings` that the program uses on it.
-- A text is valid UTF-8; where the program counts bytes, the text is ASCII by then.
pub mod Splitting
pub mod Trimming
pub mod Words
use Prim.Native.Nat.{ℕ, zero, suc, ◌+◌, ◌/◌, ◌%◌}
use Prim.Native.Char.{code}
use Prim.Native.String.{String}
use mathlib.Core.Bool.{Bool, true, false, ◌&&◌, ◌||◌}
use mathlib.Core.Option.{Option, none, some}
use mathlib.Core.List.{List, [], ◌∷◌, ◌++◌, map, reverse}
use maclet.Prelude.Tests.{ltb, leb, eqb, if◌then◌else◌}

abbrev pub Text : Type 0
Text = List ℕ

-- The code points of a literal.
abbrev pub codes : String → Text
codes String.[] = []
codes (String.◌∷◌ c s) = code c ∷ codes s

-- unicode.IsSpace: the Latin-1 spaces and the White_Space property above them.
unfoldable pub is_space : ℕ → Bool
is_space c =
    leb 9 c && leb c 13
    || eqb c 32
    || eqb c 0x85
    || eqb c 0xA0
    || eqb c 0x1680
    || leb 0x2000 c && leb c 0x200A
    || eqb c 0x2028
    || eqb c 0x2029
    || eqb c 0x202F
    || eqb c 0x205F
    || eqb c 0x3000

unfoldable pub trim_left : (ℕ → Bool) → Text → Text
trim_left p [] = []
trim_left p (c ∷ s) = if p c then trim_left p s else c ∷ s

-- A kept character, unless it is one to trim and nothing is kept behind it.
abbrev pub keep_left : Bool → ℕ → Text → Text
keep_left true c [] = []
keep_left false c [] = c ∷ []
keep_left b c (d ∷ s) = c ∷ d ∷ s

unfoldable pub trim_right : (ℕ → Bool) → Text → Text
trim_right p [] = []
trim_right p (c ∷ s) = keep_left (p c) c (trim_right p s)

-- strings.Trim with a cutset given as a test
unfoldable pub trim : (ℕ → Bool) → Text → Text
unfolding trim_left trim_right
trim p s = trim_right p (trim_left p s)

-- strings.TrimSpace
unfoldable pub trim_space : Text → Text
unfolding trim is_space
trim_space s = trim is_space s

-- unicode.ToLower: the ASCII letters here; the table of the other runes is the argument.
unfoldable pub lower_rune : (ℕ → ℕ) → ℕ → ℕ
lower_rune table c = if ltb c 128 then (if leb b'A' c && leb c b'Z' then c + 32 else c) else table c

-- strings.ToLower
unfoldable pub to_lower : (ℕ → ℕ) → Text → Text
unfolding lower_rune
to_lower table s = map (lower_rune table) s

unfoldable pub has_prefix : Text → Text → Bool
has_prefix s [] = true
has_prefix [] (q ∷ p) = false
has_prefix (c ∷ s) (q ∷ p) = eqb c q && has_prefix s p

unfoldable pub has_suffix : Text → Text → Bool
unfolding has_prefix
has_suffix s p = has_prefix (reverse s) (reverse p)

-- strings.TrimPrefix and strings.TrimSuffix
unfoldable pub after : Text → Text → Option Text
after [] s = some s
after (c ∷ p) [] = none
after (c ∷ p) (d ∷ s) = if eqb c d then after p s else none

abbrev pub or_whole : Text → Option Text → Text
or_whole s none = s
or_whole s (some t) = t

unfoldable pub trim_prefix : Text → Text → Text
unfolding after
trim_prefix s p = or_whole s (after p s)

unfoldable pub trim_suffix : Text → Text → Text
unfolding trim_prefix
trim_suffix s p = reverse (trim_prefix (reverse s) (reverse p))

-- strings.TrimSuffix with one character
unfoldable pub trim_suffix_char : ℕ → Text → Text
trim_suffix_char q [] = []
trim_suffix_char q (c ∷ []) = if eqb c q then [] else c ∷ []
trim_suffix_char q (c ∷ d ∷ s) = c ∷ trim_suffix_char q (d ∷ s)

abbrev pub cons_head : ℕ → List Text → List Text
cons_head c [] = (c ∷ []) ∷ []
cons_head c (p ∷ ps) = (c ∷ p) ∷ ps

-- strings.Split by one character
unfoldable pub split : ℕ → Text → List Text
split q [] = [] ∷ []
split q (c ∷ s) = let rest = split q s in if eqb c q then [] ∷ rest else cons_head c rest

-- strings.Cut by one character: what stands before it, and what stands behind it if it occurs
unfoldable pub cut : ℕ → Text → Text × Option Text
cut q [] = ([], none)
cut q (c ∷ s) = let rest = cut q s in if eqb c q then ([], some s) else (c ∷ rest.0, rest.1)

unfoldable pub contains_char : ℕ → Text → Bool
contains_char q [] = false
contains_char q (c ∷ s) = eqb c q || contains_char q s

-- strings.Contains
unfoldable pub contains_text : Text → Text → Bool
unfolding has_prefix
contains_text [] p = has_prefix [] p
contains_text (c ∷ s) p = has_prefix (c ∷ s) p || contains_text s p

-- strings.Join
unfoldable pub join : Text → List Text → Text
join sep [] = []
join sep (p ∷ []) = p
join sep (p ∷ q ∷ ps) = p ++ sep ++ join sep (q ∷ ps)

-- strconv.Itoa of a number below 10 ^ fuel, most significant digit first
decimal_from : ℕ → ℕ → Text → Text
decimal_from zero n acc = acc
decimal_from (suc f) n acc =
    let acc' = (b'0' + n % 10) ∷ acc in
    let rest = decimal_from f (n / 10) acc' in if ltb n 10 then acc' else rest

unfoldable pub itoa : ℕ → Text
unfolding decimal_from
itoa n = decimal_from (n + 1) n []

-- The pieces between the spaces, some of them empty
unfoldable pub pieces : Text → List Text
unfolding is_space
pieces [] = [] ∷ []
pieces (c ∷ s) = let rest = pieces s in if is_space c then [] ∷ rest else cons_head c rest

abbrev pub keep_filled : Text → List Text → List Text
keep_filled [] ps = ps
keep_filled (c ∷ p) ps = (c ∷ p) ∷ ps

abbrev pub filled : List Text → List Text
filled [] = []
filled (p ∷ ps) = keep_filled p (filled ps)

-- strings.Fields
unfoldable pub fields : Text → List Text
unfolding pieces
fields s = filled (pieces s)
