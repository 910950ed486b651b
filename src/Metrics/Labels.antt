-- ===== src/Metrics/Labels.antt =====
-- The labels of the exposition text (pkg/maclet/resource_metrics.go) and a reader of them.
use maclet.Prelude.{
  ℕ, zero, suc, ◌≡◌, ◌<◌, refl, ◌∙◌, ap, Bool, true, false, Option, none, some, List, [], ◌∷◌, ◌++◌,
  ◌==◌, text_eq_instance, All, arith, eqb, eqb_iff, length, contains, nat_instance, if◌then◌else◌,
  Bool-cases, inl, inr, append_assoc,
}
use maclet.Prelude.Text.{Text, codes, cut}

-- strings.ReplaceAll of one byte
unfoldable pub replace_all : ℕ → Text → Text → Text
replace_all old new [] = []
replace_all old new (c ∷ s) =
    let rest = replace_all old new s in if eqb c old then new ++ rest else c ∷ rest

unfoldable pub escape_prometheus_label : Text → Text
unfolding replace_all
escape_prometheus_label value =
    replace_all 10 (codes "\\n")
      (replace_all 34 (codes "\\\"") (replace_all 92 (codes "\\\\") value))

-- The names and values by turns, after what separates them from those before; the last is left out if it
-- has no value.
unfoldable pub write_labels : Text → List Text → Text
unfolding escape_prometheus_label
write_labels separator (name ∷ value ∷ values) =
    separator
    ++ (name
        ++ (codes "=\""
            ++ (escape_prometheus_label value ++ (34 ∷ write_labels (codes ",") values))))
write_labels separator (name ∷ []) = []
write_labels separator [] = []

unfoldable pub prometheus_labels : List Text → Text
unfolding write_labels
prometheus_labels values = 123 ∷ write_labels [] values ++ 125 ∷ []

-- The reader, which follows the text format: in a quoted value a backslash stands before a backslash, a
-- quote or the letter n, and no line ends.
pub unescaped : ℕ → Option ℕ
unescaped c =
    if eqb c 92 then some 92 else if eqb c 34 then some 34 else if eqb c 110 then some 10 else none

abbrev with_first : ℕ → Option (Text × Text) → Option (Text × Text)
with_first c none = none
with_first c (some (value, rest)) = some (c ∷ value, rest)

-- Up to the closing quote; with true after a backslash
unfoldable pub read_value : Bool → Text → Option (Text × Text)
read_value escape [] = none
read_value true (c ∷ s) = elim (unescaped c) [
  | none ↦ none
  | some d ↦ with_first d (read_value false s)
]
read_value false (c ∷ s) = elim (eqb c 34) [
  | true ↦ some ([], s)
  | false ↦ elim (eqb c 92) [
    | true ↦ read_value true s
    | false ↦ elim (eqb c 10) [ true ↦ none | false ↦ with_first c (read_value false s) ]
  ]
]

replace_all-append :
    (old : ℕ) (new s t : Text)
    → replace_all old new (s ++ t) ≡ replace_all old new s ++ replace_all old new t
unfolding replace_all
replace_all-append old new [] t = refl
replace_all-append old new (c ∷ s) t = elim (Bool-cases (eqb c old)) [
  | inl same ↦ ground (
    arith,
    same,
    replace_all-append old new s t,
    append_assoc new (replace_all old new s) (replace_all old new t),
  )
  | inr other ↦ ground (arith, other, replace_all-append old new s t)
]

escape-append :
    (s t : Text)
    → escape_prometheus_label (s ++ t) ≡ escape_prometheus_label s ++ escape_prometheus_label t
unfolding escape_prometheus_label
escape-append s t = rw (
  replace_all-append 92 (codes "\\\\") s t,
  replace_all-append 34 (codes "\\\"") (replace_all 92 (codes "\\\\") s)
      (replace_all 92 (codes "\\\\") t),
  replace_all-append 10 (codes "\\n")
      (replace_all 34 (codes "\\\"") (replace_all 92 (codes "\\\\") s))
      (replace_all 34 (codes "\\\"") (replace_all 92 (codes "\\\\") t)),
)

read_value-one :
    (c : ℕ) (t : Text)
    → read_value false (escape_prometheus_label (c ∷ []) ++ t) ≡ with_first c (read_value false t)
unfolding read_value escape_prometheus_label replace_all unescaped
read_value-one c t = elim (Bool-cases (eqb c 92)) [
  | inl slash ↦ let same : c ≡ 92 = (eqb_iff c 92).0 slash in rw same
  | inr plain ↦ elim (Bool-cases (eqb c 34)) [
    | inl quote ↦ let same : c ≡ 34 = (eqb_iff c 34).0 quote in rw same
    | inr word ↦ elim (Bool-cases (eqb c 10)) [
      | inl line ↦ let same : c ≡ 10 = (eqb_iff c 10).0 line in rw same
      | inr ink ↦ ground (arith, plain, word, ink)
    ]
  ]
]

read_value-escape :
    (value rest : Text)
    → read_value false (escape_prometheus_label value ++ 34 ∷ rest) ≡ some (value, rest)
unfolding read_value escape_prometheus_label
read_value-escape [] rest = refl
read_value-escape (c ∷ s) rest =
    ap (λ e. read_value false (e ++ 34 ∷ rest)) (escape-append (c ∷ []) s)
    ∙ ap (read_value false)
        (append_assoc (escape_prometheus_label (c ∷ [])) (escape_prometheus_label s) (34 ∷ rest))
    ∙ read_value-one c (escape_prometheus_label s ++ 34 ∷ rest)
    ∙ ap (with_first c) (read_value-escape s rest)

abbrev quoted : Option Text → Option (Text × Text)
quoted none = none
quoted (some []) = none
quoted (some (q ∷ s)) = if eqb q 34 then read_value false s else none

abbrev before_all : Text × Text → Option (List (Text × Text)) → Option (List (Text × Text))
before_all p none = none
before_all p (some ps) = some (p ∷ ps)

abbrev and_more :
    (Text → Option (List (Text × Text))) → Text → Option (Text × Text) → Option (List (Text × Text))
and_more more name none = none
and_more more name (some (value, [])) = none
and_more more name (some (value, c ∷ rest)) = elim (eqb c 125) [
  | true ↦ if rest == [] then some ((name, value) ∷ []) else none
  | false ↦ if eqb c 44 then before_all (name, value) (more rest) else none
]

-- On fuel, the number of the labels at most
unfoldable pub read_pairs : ℕ → Text → Option (List (Text × Text))
unfolding read_value cut
read_pairs zero s = none
read_pairs (suc fuel) s = and_more (read_pairs fuel) (cut 61 s).0 (quoted (cut 61 s).1)

unfoldable pub read_labels : ℕ → Text → Option (List (Text × Text))
unfolding read_pairs
read_labels fuel [] = none
read_labels fuel (c ∷ s) = if eqb c 123 then read_pairs fuel s else none

-- The arguments that prometheusLabels takes for some labels
abbrev pub arguments : List (Text × Text) → List Text
arguments [] = []
arguments ((name, value) ∷ ls) = name ∷ value ∷ arguments ls

-- Without an equals sign
abbrev pub IsLabelName : Text → Type 0
IsLabelName name = contains name 61 ≡ false

cut-name : (name s : Text) → IsLabelName name → cut 61 (name ++ 61 ∷ s) ≡ (name, some s)
unfolding cut contains
cut-name [] s h = refl
cut-name (c ∷ name) s h = ground (arith, h, cut-name name s)

-- One label and what stands behind it
read_pairs-label :
    (fuel : ℕ) (name value t u : Text)
    → IsLabelName name
    → read_pairs
        (suc fuel)
        ((name ++ (codes "=\"" ++ (escape_prometheus_label value ++ (34 ∷ t)))) ++ u)
      ≡ and_more (read_pairs fuel) name (some (value, t ++ u))
unfolding read_pairs
read_pairs-label fuel name value t u h =
    let behind = escape_prometheus_label value ++ (34 ∷ t) in
    let ends : behind ++ u ≡ escape_prometheus_label value ++ (34 ∷ t ++ u) =
      append_assoc (escape_prometheus_label value) (34 ∷ t) u in
    rw (
      append_assoc name (codes "=\"" ++ behind) u,
      cut-name name (34 ∷ behind ++ u) h,
      ends,
      read_value-escape value (t ++ u),
    )

read_pairs-write_labels :
    (ls : List (Text × Text)) (fuel : ℕ) (name value : Text)
    → IsLabelName name
    → All (λ (n, v). IsLabelName n) ls
    → length ls < fuel
    → read_pairs fuel (write_labels [] (arguments ((name, value) ∷ ls)) ++ 125 ∷ [])
      ≡ some ((name, value) ∷ ls)
unfolding write_labels
read_pairs-write_labels ls zero name value h k f = absurd (omega arith)
read_pairs-write_labels [] (suc fuel) name value h k f =
    read_pairs-label fuel name value [] (125 ∷ []) h
read_pairs-write_labels ((n, v) ∷ ls) (suc fuel) name value h k f =
    let more = write_labels (codes ",") (arguments ((n, v) ∷ ls)) in
    read_pairs-label fuel name value more (125 ∷ []) h
    ∙ ap (before_all (name, value)) (read_pairs-write_labels ls fuel n v k.0 k.1 (omega (arith, f)))

-- The text that prometheusLabels writes for at least one label, with names without an equals sign, is read
-- back by a reader of the text format as just these names and values, whatever bytes the values have: a
-- backslash, a quote or a line end in a value never ends the value or the line early.
pub read_labels-prometheus_labels :
    (ls : List (Text × Text)) (name value : Text)
    → All (λ (n, v). IsLabelName n) ((name, value) ∷ ls)
    → read_labels (length ((name, value) ∷ ls)) (prometheus_labels (arguments ((name, value) ∷ ls)))
      ≡ some ((name, value) ∷ ls)
unfolding read_labels prometheus_labels
read_labels-prometheus_labels ls name value h =
    read_pairs-write_labels ls (length ((name, value) ∷ ls)) name value h.0 h.1 (omega arith)
