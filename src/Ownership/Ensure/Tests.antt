-- ===== src/Ownership/Ensure/Tests.antt =====
-- Concrete runs of ensureOwnedNode (pkg/maclet/ownership.go).
use maclet.Prelude.{◌≡◌, refl, true, false, Option, some, List, [], ◌∷◌, err}
use maclet.Ownership.Node.{
  verify_unmarked, values_agree, validate_adoptable, put, lookup, has_managed_taint, get,
  desired_node, taints_equal, merge, string_map_equal, verify_node_ownership, not_marked, Node,
  desired_owned_node,
}
use maclet.Ownership.Ensure.{
  patched, patch_of, merged_taints, after_refresh, merged_annotations, needs_patch, update,
  after_create, verify_uid, as_conflict, check, decoded, claim_node, after_get, ask, Request,
  get_node, create_node, patch_node, Reply, body, status, unreachable, ensure_owned_node, conflict,
}
use maclet.Ownership.Ensure.Safety.{
  IsCareful, IsOurs, fresh, ensure_owned_node-IsCareful, ensure_owned_node-IsOurs,
}

-- Bodies are Nodes here.
abbrev whole : Node → Node → Option Node
whole b n = some b

-- A cluster without the Node, which stores what is created with a UID.
abbrev empty_cluster : List Request → Request → Reply Node
empty_cluster h (get_node n) = status 404
empty_cluster h (create_node n) = body (record n { uid = "u1" })
empty_cluster h (patch_node n p) = unreachable

-- A cluster with a Node that a maclet without markers left behind; a patch is applied.
abbrev left_behind : Node
left_behind = record {
  name = "mac";
  uid = "u0";
  resource_version = "7";
  labels = ("kubernetes.io/os", "darwin") ∷ [];
  annotations = [];
  taints = [];
}

abbrev old_cluster : List Request → Request → Reply Node
old_cluster h (get_node n) = body left_behind
old_cluster h (create_node n) = status 409
old_cluster h (patch_node n p) =
    body (record left_behind { labels = p.labels; annotations = p.annotations; taints = p.taints })

abbrev created_node : Node
created_node = record (desired_owned_node "arm64" "mac" "i1") { uid = "u1" }

ensure_owned_node-IsCareful_example :
    IsCareful Node whole old_cluster "arm64" "mac" "i1" "u0" true
      (ensure_owned_node Node whole old_cluster "arm64" "mac" "i1" "u0" true []).1
ensure_owned_node-IsCareful_example =
    ensure_owned_node-IsCareful Node whole old_cluster "arm64" "mac" "i1" "u0" true [] tt

ensure_owned_node-IsOurs_example :
    IsOurs Node whole empty_cluster "arm64" "mac" "i1" "u0" false
      (fresh Node whole empty_cluster "arm64" "mac" "i1" "u0" false
        (ensure_owned_node Node whole empty_cluster "arm64" "mac" "i1" "u0" false []).1)
      created_node
unfolding ensure_owned_node ask after_get after_create claim_node decoded check as_conflict
    verify_node_ownership desired_owned_node verify_uid update needs_patch string_map_equal merge
    merged_annotations taints_equal after_refresh merged_taints patch_of patched desired_node get
    has_managed_taint lookup put validate_adoptable values_agree verify_unmarked
ensure_owned_node-IsOurs_example =
    ensure_owned_node-IsOurs Node whole empty_cluster "arm64" "mac" "i1" "u0" false [] created_node
      refl

-- Without the flag nothing is written.
stands_off :
    (ensure_owned_node Node whole old_cluster "arm64" "mac" "i1" "u0" false [])
    ≡ (err (conflict not_marked), get_node "mac" ∷ [])
unfolding ensure_owned_node ask after_get claim_node decoded check as_conflict verify_node_ownership
    verify_uid
stands_off = refl
