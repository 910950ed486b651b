-- ===== src/Ownership/Node/Laws.antt =====
-- Laws of the maps and of the checks on a Node (pkg/maclet/ownership.go).
use maclet.Prelude.{
  suc, ◌≡◌, refl, ◌⊎◌, inl, inr, Bool, true, false, none, some, [], ◌∷◌, String, eq_iff,
  string_instance, length, ok, arith, Option-cases,
}
use maclet.Ownership.Node.{
  StringMap, lookup, put, string_map_equal, Node, instance_annotation, verify_node_ownership,
  verify_unmarked, validate_adoptable,
}

pub length-put :
    (m : StringMap) (key value : String)
    → lookup m key ≡ none
    → length (put m key value) ≡ suc (length m)
unfolding lookup put
length-put [] key value h = refl
length-put ((k, v) ∷ m) key value h = ground (arith, length-put m key value)

-- Adding a key makes another map.
pub string_map_equal-put :
    (m : StringMap) (key value : String)
    → lookup m key ≡ none
    → string_map_equal m (put m key value) ≡ false
unfolding string_map_equal
string_map_equal-put m key value h = ground (arith, length-put m key value h)

-- What a Node has that passed the checks.
pub verify_node_ownership-ok :
    (arch : String) (node : Node) (name instance_id uid : String) (adopt : Bool)
    → verify_node_ownership arch node name instance_id uid adopt ≡ ok tt
    → (node.name ≡ name)
      × ((uid ≡ "") ⊎ (node.uid ≡ uid))
      × ((lookup node.annotations instance_annotation ≡ some instance_id)
          ⊎ ((lookup node.annotations instance_annotation ≡ none)
              × (adopt ≡ true)
              × (validate_adoptable arch node ≡ ok tt)))
unfolding verify_node_ownership verify_unmarked
verify_node_ownership-ok arch node name instance_id uid adopt h =
    elim (Option-cases (lookup node.annotations instance_annotation)) [
      | inl none_there ↦ ground (arith, eq_iff node.name name, eq_iff uid "", eq_iff node.uid uid)
      | inr (marker, there) ↦ ground (
        arith,
        eq_iff node.name name,
        eq_iff uid "",
        eq_iff node.uid uid,
        eq_iff marker instance_id,
      )
    ]
