-- ===== src/Ownership/Ensure.antt =====
-- ensureOwnedNode (pkg/maclet/ownership.go). The API server is an oracle: what it answers may depend
-- on all requests made so far, which are kept newest first. `decode` is json.Unmarshal into a Node
-- that may have fields already.
pub mod Safety
mod Tests
use maclet.Prelude.{
  ℕ, Bool, true, false, not, ◌||◌, ◌&&◌, Option, none, some, List, [], ◌∷◌, ◌++◌, String, eqb, ◌==◌,
  string_instance, if◌then◌else◌, Result, ok, err,
}
use maclet.Prelude.Exec.{Exec, pure, fail, lift, ◌>>=◌, ◌>>◌}
use maclet.Ownership.Node.{
  StringMap, get, lookup, merge, put, string_map_equal, Taint, taints_equal, Node,
  instance_annotation, managed_taint, has_managed_taint, desired_owned_node, Conflict,
  verify_node_ownership,
}

pub record Patch : Type 0 where
  pub labels : StringMap
  pub annotations : StringMap
  pub resource_version : String
  pub taints : List Taint

pub data Request : Type 0 where
  get_node : String → Request
  create_node : Node → Request
  patch_node : String → Patch → Request

-- `status` is an HTTPError with its code, `unreachable` any other error.
pub data Reply (Body : Type 0) : Type 0 where
  body : Body → Reply Body
  status : ℕ → Reply Body
  unreachable : Reply Body

pub data NodeError : Type 0 where
  no_instance_id not_read not_created not_refreshed not_decoded not_patched : NodeError
  conflict : Conflict → NodeError

abbrev pub Api : Type 0 → Type 0
Api A = Exec NodeError (List Request) A

-- The Node that decoding starts from
abbrev pub no_node : Node
no_node = record {
  name = "";
  uid = "";
  resource_version = "";
  labels = [];
  annotations = [];
  taints = [];
}

unfoldable pub as_conflict : Result Conflict (Unit {0}) → Result NodeError (Unit {0})
as_conflict (ok u) = ok u
as_conflict (err c) = err (conflict c)

-- The annotations that a patch writes: the marker is added to a Node that has none.
unfoldable pub merged_annotations : String → Node → StringMap
merged_annotations instance_id node =
    if get node.annotations instance_annotation == ""
    then put node.annotations instance_annotation instance_id
    else node.annotations

unfoldable pub merged_taints : Node → List Taint
merged_taints node =
    if has_managed_taint node.taints then node.taints else node.taints ++ managed_taint ∷ []

module _ (Body : Type 0) (decode : Body → Node → Option Node)
    (api : List Request → Request → Reply Body) (arch name instance_id expected_uid : String)
    (adopt : Bool) where
  ask : Request → Api (Reply Body)
  ask r h = (ok (api h r), r ∷ h)

  -- The body of a Node and whether this call created it
  after_refresh : Reply Body → Api (Body × Bool)
  after_refresh (body b) = pure (b, false)
  after_refresh (status code) = fail not_refreshed
  after_refresh unreachable = fail not_refreshed

  after_create : Reply Body → Api (Body × Bool)
  after_create (body b) = pure (b, true)
  after_create (status code) =
      if eqb code 409 then ask (get_node name) >>= after_refresh else fail not_created
  after_create unreachable = fail not_created

  after_get : Reply Body → Api (Body × Bool)
  after_get (body b) = pure (b, false)
  after_get (status code) =
      if eqb code 404
      then ask (create_node (desired_owned_node arch name instance_id)) >>= after_create
      else fail not_read
  after_get unreachable = fail not_read

  decoded : Option Node → Api Node
  decoded none = fail not_decoded
  decoded (some node) = pure node

  patched : Node → Reply Body → Api Node
  patched node (body b) = decoded (decode b node)
  patched node (status code) = fail not_patched
  patched node unreachable = fail not_patched

  patch_of : Node → Patch
  patch_of node = record {
    labels = merge node.labels (desired_owned_node arch name instance_id).labels;
    annotations = merged_annotations instance_id node;
    resource_version = node.resource_version;
    taints = merged_taints node;
  }

  needs_patch : Node → Bool
  unfolding patch_of
  needs_patch node =
      let p = patch_of node in
      not (string_map_equal node.labels p.labels)
      || not (string_map_equal node.annotations p.annotations)
      || not (taints_equal node.taints p.taints)

  -- A Node that this call created has a new UID, whatever was persisted.
  verify_uid : Bool → String
  verify_uid created = if created then "" else expected_uid

  check : String → Bool → Node → Api (Unit {0})
  check uid claim node =
      lift (as_conflict (verify_node_ownership arch node name instance_id uid claim))

  update : String → Node → Api Node
  update uid node h =
      if needs_patch node
      then (do
        reply ← ask (patch_node name (patch_of node))
        fresh ← patched node reply
        check uid false fresh
        pure fresh)
          h
      else (ok node, h)

  claim_node : Body × Bool → Api Node
  claim_node (b, created) = do
    node ← decoded (decode b no_node)
    check (verify_uid created) adopt node
    update (verify_uid created) node

  pub ensure_owned_node : Api Node
  ensure_owned_node h =
      if instance_id == ""
      then (err no_instance_id, h)
      else (do reply ← ask (get_node name); found ← after_get reply; claim_node found) h
