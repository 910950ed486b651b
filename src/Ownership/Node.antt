-- ===== src/Ownership/Node.antt =====
-- Node objects and the checks on them: verifyNodeOwnership, validateAdoptableNode, the comparison of
-- maps and taints (pkg/maclet/ownership.go), desiredNode and hasManagedTaint (pkg/maclet/node.go).
-- A map is an association list whose keys are distinct; a nil map is the empty one.
pub mod Laws
use maclet.Prelude.{
  ℕ, Bool, true, false, not, ◌||◌, ◌&&◌, Option, none, some, List, [], ◌∷◌, ◌++◌, String, eqb, ◌==◌,
  string_instance, length, if◌then◌else◌, Result, ok, err,
}

abbrev pub StringMap : Type 0
StringMap = List (String × String)

-- The comma-ok form of a map access
unfoldable pub lookup : StringMap → String → Option String
lookup [] key = none
lookup ((k, v) ∷ m) key = if k == key then some v else lookup m key

abbrev pub or_empty : Option String → String
or_empty none = ""
or_empty (some v) = v

-- A map access without it: the zero value for a missing key
unfoldable pub get : StringMap → String → String
unfolding lookup
get m key = or_empty (lookup m key)

unfoldable pub put : StringMap → String → String → StringMap
put [] key value = (key, value) ∷ []
put ((k, v) ∷ m) key value =
    let rest = put m key value in if k == key then (key, value) ∷ m else (k, v) ∷ rest

unfoldable pub merge : StringMap → StringMap → StringMap
unfolding put
merge m [] = m
merge m ((k, v) ∷ over) = merge (put m k v) over

unfoldable pub values_agree : StringMap → StringMap → Bool
values_agree [] right = true
values_agree ((k, v) ∷ left) right = get right k == v && values_agree left right

unfoldable pub string_map_equal : StringMap → StringMap → Bool
unfolding values_agree
string_map_equal left right = eqb (length left) (length right) && values_agree left right

-- TimeAdded is a number of the time line, or nil.
pub record Taint : Type 0 where
  pub key : String
  pub value : String
  pub effect : String
  pub time_added : Option ℕ

abbrev pub time_equal : Option ℕ → Option ℕ → Bool
time_equal none none = true
time_equal (some a) (some b) = eqb a b
time_equal none (some b) = false
time_equal (some a) none = false

unfoldable pub taints_equal : List Taint → List Taint → Bool
taints_equal [] [] = true
taints_equal (a ∷ left) (b ∷ right) =
    a.key == b.key
    && a.value == b.value
    && a.effect == b.effect
    && time_equal a.time_added b.time_added
    && taints_equal left right
taints_equal [] (b ∷ right) = false
taints_equal (a ∷ left) [] = false

-- What the code reads of a Node object; an empty text is a missing field.
pub record Node : Type 0 where
  pub name : String
  pub uid : String
  pub resource_version : String
  pub labels : StringMap
  pub annotations : StringMap
  pub taints : List Taint

abbrev pub instance_annotation : String
instance_annotation = "k8s-darwin.dev/maclet-instance-id"

abbrev pub managed_key : String
managed_key = "k8s-darwin.dev/native"

abbrev pub managed_taint : Taint
managed_taint = record {
  key = managed_key;
  value = "true";
  effect = "NoSchedule";
  time_added = none;
}

unfoldable pub has_managed_taint : List Taint → Bool
has_managed_taint [] = false
has_managed_taint (t ∷ ts) =
    t.key == managed_key && t.value == "true" && t.effect == "NoSchedule" || has_managed_taint ts

-- `arch` is the architecture that maclet was built for.
unfoldable pub desired_node : String → String → Node
desired_node arch name = record {
  name = name;
  uid = "";
  resource_version = "";
  labels =
      ("kubernetes.io/arch", arch) ∷ ("kubernetes.io/os", "darwin") ∷ (managed_key, "true") ∷ [];
  annotations = [];
  taints = managed_taint ∷ [];
}

unfoldable pub desired_owned_node : String → String → String → Node
unfolding desired_node
desired_owned_node arch name instance_id = record (desired_node arch name) {
  annotations = (instance_annotation, instance_id) ∷ [];
}

pub data Conflict : Type 0 where
  other_name other_marker no_uid other_uid not_marked : Conflict
  incompatible : String → Conflict

-- A label that is set must have the value.
abbrev pub compatible : String → String → Bool
compatible value wanted = value == "" || value == wanted

unfoldable pub validate_adoptable : String → Node → Result Conflict (Unit {0})
unfolding get lookup
validate_adoptable arch node =
    if not (compatible (get node.labels "kubernetes.io/os") "darwin")
    then err (incompatible "kubernetes.io/os")
    else if not (compatible (get node.labels "kubernetes.io/arch") arch)
    then err (incompatible "kubernetes.io/arch")
    else if not (compatible (get node.labels managed_key) "true")
    then err (incompatible managed_key)
    else ok tt

-- The last check: an unmarked Node is adopted only on request.
unfoldable pub verify_unmarked : String → Option String → Bool → Node → Result Conflict (Unit {0})
unfolding validate_adoptable
verify_unmarked arch (some marker) adopt node = ok tt
verify_unmarked arch none adopt node =
    if not adopt then err not_marked else validate_adoptable arch node

abbrev pub other_than : Option String → String → Bool
other_than none instance_id = false
other_than (some marker) instance_id = not (marker == instance_id)

unfoldable pub verify_node_ownership :
    String → Node → String → String → String → Bool → Result Conflict (Unit {0})
unfolding verify_unmarked lookup
verify_node_ownership arch node name instance_id expected_uid adopt =
    let marker = lookup node.annotations instance_annotation in
    if not (node.name == name)
    then err other_name
    else if other_than marker instance_id
    then err other_marker
    else if not (expected_uid == "") && node.uid == ""
    then err no_uid
    else if not (expected_uid == "") && not (node.uid == expected_uid)
    then err other_uid
    else verify_unmarked arch marker adopt node
