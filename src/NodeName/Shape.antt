-- ===== src/NodeName/Shape.antt =====
-- What every name of a Node looks like that is made from the name of a host (pkg/maclet/node_name.go).
mod Tests
use maclet.Prelude.{
  ℕ, suc, ◌+◌, ◌≤◌, ◌≡◌, refl, Bool, true, false, not, ◌||◌, ◌&&◌, List, [], ◌∷◌, ◌++◌, All,
  All-take, length, take, length-take-le, ltb, leb, eqb, ◌==◌, text_eq_instance, arith,
  if◌then◌else◌, Bool-cases, inl, inr,
}
use maclet.Prelude.Text.{
  Text, codes, trim_left, trim_right, trim, trim_space, to_lower, split, join,
}
use maclet.Prelude.Text.Trimming.{
  IsOpenLeft, IsOpenRight, trim_left-IsOpenLeft, trim_right-IsOpenRight, trim_right-IsOpenLeft,
  take-IsOpenLeft, trim_right-length, All-trim_left, All-trim_right,
}
use maclet.NodeName.{
  is_alphanumeric, is_dash, is_end, label_from, shortened_label, normalized, shortened_name,
  node_name_from_hostname,
}

abbrev pub IsLabelCharacter : ℕ → Type 0
IsLabelCharacter c = (is_alphanumeric c || is_dash c) ≡ true

abbrev pub IsNodeCharacter : ℕ → Type 0
IsNodeCharacter c = (is_alphanumeric c || is_end c) ≡ true

All-label_from : (s : Text) (empty last : Bool) → All IsLabelCharacter (label_from s empty last)
unfolding label_from is_alphanumeric
All-label_from [] empty last = tt
All-label_from (c ∷ s) empty last =
    ground (
      arith,
      All-label_from s false false,
      All-label_from s false true,
      All-label_from s empty last,
    )

-- What a label is before it is tested for being empty
abbrev IsPlain : Text → Type 0
IsPlain s = All IsLabelCharacter s × IsOpenLeft is_dash s × IsOpenRight is_dash s

trim-IsPlain : (s : Text) → All IsLabelCharacter s → IsPlain (trim is_dash s)
unfolding trim
trim-IsPlain s all =
    let left = trim_left is_dash s in
    (
      All-trim_right is_dash IsLabelCharacter left (All-trim_left is_dash IsLabelCharacter s all),
      trim_right-IsOpenLeft is_dash left (trim_left-IsOpenLeft is_dash s),
      trim_right-IsOpenRight is_dash left,
    )

shortened_label-IsPlain : (s : Text) → IsPlain s → IsPlain (shortened_label s)
unfolding shortened_label
shortened_label-IsPlain s h = elim (Bool-cases (ltb 63 (length s))) [
  | inl long ↦ rw long (
    All-trim_right is_dash IsLabelCharacter (take 63 s) (All-take IsLabelCharacter 63 s h.0),
    trim_right-IsOpenLeft is_dash (take 63 s) (take-IsOpenLeft is_dash 62 s h.1),
    trim_right-IsOpenRight is_dash (take 63 s),
  )
  | inr short ↦ rw short h
]

abbrev IsLabel : Text → Type 0
IsLabel s = ((s == []) ≡ false) × IsPlain s

All-unless :
    (b : Bool) (s : Text) (rest : List Text)
    → (b ≡ false → IsLabel s)
    → All IsLabel rest
    → All IsLabel (if b then rest else s ∷ rest)
All-unless true s rest h k = k
All-unless false s rest h k = (h refl, k)

All-either :
    (b : Bool) (xs ys : List Text)
    → All IsLabel xs
    → All IsLabel ys
    → All IsLabel (if b then xs else ys)
All-either true xs ys h k = h
All-either false xs ys h k = k

normalized-IsLabel : (labels : List Text) → All IsLabel (normalized labels)
unfolding normalized
normalized-IsLabel [] = tt
normalized-IsLabel (raw ∷ labels) =
    let value = trim is_dash (label_from raw true false) in
    let plain = shortened_label-IsPlain value (trim-IsPlain _ (All-label_from raw true false)) in
    let rest = normalized-IsLabel labels in
    All-either (value == []) (normalized labels) _ rest (
      All-unless (shortened_label value == []) (shortened_label value) (normalized labels)
        (λ e. (e, plain)) rest)

-- A name as a list of labels: characters and ends
abbrev IsName : Text → Type 0
IsName s = All IsNodeCharacter s × IsOpenLeft is_end s × IsOpenRight is_end s

open_end : (c : ℕ) → IsLabelCharacter c → is_dash c ≡ false → is_end c ≡ false
unfolding is_alphanumeric is_end
open_end c h k = ground (arith, h, k)

All-IsNodeCharacter : (s : Text) → All IsLabelCharacter s → All IsNodeCharacter s
unfolding is_alphanumeric is_end
All-IsNodeCharacter [] h = tt
All-IsNodeCharacter (c ∷ s) h = (ground (arith, h.0), All-IsNodeCharacter s h.1)

label-IsOpenLeft : (s : Text) → All IsLabelCharacter s → IsOpenLeft is_dash s → IsOpenLeft is_end s
label-IsOpenLeft [] h k = tt
label-IsOpenLeft (c ∷ s) h k = open_end c h.0 k

label-IsOpenRight :
    (s : Text) → All IsLabelCharacter s → IsOpenRight is_dash s → IsOpenRight is_end s
label-IsOpenRight [] h k = tt
label-IsOpenRight (c ∷ []) h k = open_end c h.0 k
label-IsOpenRight (c ∷ d ∷ s) h k = label-IsOpenRight (d ∷ s) h.1 k

label-IsName : (s : Text) → IsPlain s → IsName s
label-IsName s h =
    (All-IsNodeCharacter s h.0, label-IsOpenLeft s h.0 h.1, label-IsOpenRight s h.0 h.2)

All-append :
    (s t : Text) → All IsNodeCharacter s → All IsNodeCharacter t → All IsNodeCharacter (s ++ t)
All-append [] t h k = k
All-append (c ∷ s) t h k = (h.0, All-append s t h.1 k)

append-IsOpenRight :
    (s t : Text) → (t == []) ≡ false → IsOpenRight is_end t → IsOpenRight is_end (s ++ t)
append-IsOpenRight [] t e h = h
append-IsOpenRight (c ∷ []) [] e h = ground (arith, e)
append-IsOpenRight (c ∷ []) (d ∷ t) e h = h
append-IsOpenRight (c ∷ d ∷ s) t e h = append-IsOpenRight (d ∷ s) t e h

-- A label, a dot and a name that is not empty
joined-IsName :
    (s t : Text)
    → IsName s
    → (s == []) ≡ false
    → IsName t
    → (t == []) ≡ false
    → IsName (s ++ codes "." ++ t) × ((s ++ codes "." ++ t == []) ≡ false)
unfolding is_end
joined-IsName [] t h e k f = ground (arith, e)
joined-IsName (c ∷ s) t h e k f = (
  (
    All-append ((c ∷ s) ++ codes ".") t (All-append (c ∷ s) (codes ".") h.0 (ground arith, tt)) k.0,
    h.1,
    append-IsOpenRight ((c ∷ s) ++ codes ".") t f k.2,
  ),
  refl,
)

join-IsName :
    (p : Text) (labels : List Text)
    → All IsLabel (p ∷ labels)
    → IsName (join (codes ".") (p ∷ labels)) × ((join (codes ".") (p ∷ labels) == []) ≡ false)
unfolding join
join-IsName p [] h = (label-IsName p h.0.1, h.0.0)
join-IsName p (q ∷ labels) h =
    let rest = join-IsName q labels h.1 in
    joined-IsName p (join (codes ".") (q ∷ labels)) (label-IsName p h.0.1) h.0.0 rest.0 rest.1

joins-IsName : (labels : List Text) → All IsLabel labels → IsName (join (codes ".") labels)
unfolding join
joins-IsName [] h = (tt, tt, tt)
joins-IsName (p ∷ labels) h = (join-IsName p labels h).0

-- At most 253 characters, all of them lower-case letters, digits, `-` or `.`, with neither `-` nor `.`
-- at the ends
abbrev pub IsNodeName : Text → Type 0
IsNodeName s = length s ≤ 253 × All IsNodeCharacter s × IsOpenLeft is_end s × IsOpenRight is_end s

shortened_name-IsNodeName : (s : Text) → IsName s → IsNodeName (shortened_name s)
unfolding shortened_name
shortened_name-IsNodeName s h = elim (Bool-cases (ltb 253 (length s))) [
  | inl long ↦ rw long (
    omega (arith, trim_right-length is_end (take 253 s), length-take-le 253 s),
    All-trim_right is_end IsNodeCharacter (take 253 s) (All-take IsNodeCharacter 253 s h.0),
    trim_right-IsOpenLeft is_end (take 253 s) (take-IsOpenLeft is_end 252 s h.1),
    trim_right-IsOpenRight is_end (take 253 s),
  )
  | inr short ↦ rw short (ground (arith, short), h.0, h.1, h.2)
]

-- The name of the Node that is made from the name of a host has at most 253 characters, all of them
-- lower-case letters, digits, `-` or `.`, with neither `-` nor `.` at the ends, whatever the host is
-- called.
pub node_name_from_hostname-IsNodeName :
    (table : ℕ → ℕ) (hostname : Text) → IsNodeName (node_name_from_hostname table hostname)
unfolding node_name_from_hostname
node_name_from_hostname-IsNodeName table hostname =
    shortened_name-IsNodeName _
      (joins-IsName _ (normalized-IsLabel (split b'.' (to_lower table (trim_space hostname)))))
