-- ===== src/NodeName.antt =====
-- The name of the Node from the name of the host (pkg/maclet/node_name.go).
pub mod Shape
use maclet.Prelude.{
  ℕ, Bool, true, false, not, ◌||◌, ◌&&◌, Option, none, some, List, [], ◌∷◌, ◌++◌, leb, ltb, eqb,
  ◌==◌, text_eq_instance, if◌then◌else◌, length, take,
}
use maclet.Prelude.Text.{Text, codes, trim_space, to_lower, split, trim, trim_right, join}

unfoldable pub is_alphanumeric : ℕ → Bool
is_alphanumeric c = leb b'a' c && leb c b'z' || leb b'0' c && leb c b'9'

abbrev pub is_dash : ℕ → Bool
is_dash c = eqb c b'-'

unfoldable pub is_end : ℕ → Bool
is_end c = eqb c b'.' || eqb c b'-'

-- What the builder gets from the rest of a label: whether it is empty and whether a separator was its
-- latest character. White space and `_` are like every other character.
unfoldable pub label_from : Text → Bool → Bool → Text
unfolding is_alphanumeric
label_from [] empty last = []
label_from (c ∷ s) empty last =
    let kept = label_from s false false in
    let separated = label_from s false true in
    let skipped = label_from s empty last in
    if is_alphanumeric c
    then c ∷ kept
    else if not empty && not last
    then b'-' ∷ separated
    else skipped

unfoldable pub shortened_label : Text → Text
unfolding trim_right
shortened_label s = if ltb 63 (length s) then trim_right is_dash (take 63 s) else s

unfoldable pub normalized : List Text → List Text
unfolding label_from trim shortened_label
normalized [] = []
normalized (raw ∷ labels) =
    let value = trim is_dash (label_from raw true false) in
    let rest = normalized labels in
    if value == []
    then rest
    else if shortened_label value == []
    then rest
    else shortened_label value ∷ rest

unfoldable pub shortened_name : Text → Text
unfolding trim_right is_end
shortened_name s = if ltb 253 (length s) then trim_right is_end (take 253 s) else s

unfoldable pub node_name_from_hostname : (ℕ → ℕ) → Text → Text
unfolding trim_space to_lower split normalized join shortened_name
node_name_from_hostname table hostname =
    shortened_name
      (join (codes ".") (normalized (split b'.' (to_lower table (trim_space hostname)))))

-- The name of the host is none where it cannot be read.
unfoldable pub default_node_name : (ℕ → ℕ) → Text → Option Text → Text
unfolding node_name_from_hostname
default_node_name table fallback none = fallback
default_node_name table fallback (some hostname) =
    let name = node_name_from_hostname table hostname in if name == [] then fallback else name
