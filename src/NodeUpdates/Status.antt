-- ===== src/NodeUpdates/Status.antt =====
-- The status of the Node and its update (pkg/maclet/node.go): nodeStatus, updateNodeStatus and
-- updateNodeStatusWithFullPut.
use maclet.Prelude.{
  ℕ, zero, suc, ◌*◌, ◌^◌, ◌-◌, Bool, false, ◌||◌, ◌&&◌, Option, none, some, List, [], ◌∷◌, ◌++◌,
  eqb, leb, ltb, ◌==◌, text_eq_instance, if◌then◌else◌,
}
use maclet.Prelude.Exec.{fail}
use maclet.Prelude.Exec.Bind.{◌>>=◌}
use maclet.Prelude.Text.{Text, codes, to_lower, contains_text, trim_space}
use maclet.NodeUpdates.{
  ClusterNode, Address, StatusCondition, Resources, NodeStatus, Request, patch_status, put_status,
  Reply, node_body, lease_body, garbled, unreachable, status, not_updated, limit_exceeded, Api,
  attempts, is_conflict, send, settle, refresh_node,
}

-- What the host tells about itself: the output of uname and sw_vers, none where they fail
pub record HostFacts : Type 0 where
  pub kernel : Option Text
  pub product_version : Option Text
  pub goos : Text
  pub cpus : ℕ
  pub memory : Option ℕ

unfoldable pub addresses_of : Text → Text → Text → List Address
addresses_of name node_ip external_ip =
    let hostname = record { kind = codes "Hostname"; address = name } ∷ [] in
    record { kind = codes "InternalIP"; address = node_ip }
    ∷ (if external_ip == []
        then hostname
        else record { kind = codes "ExternalIP"; address = external_ip } ∷ hostname)

abbrev pub status_condition : ℕ → Text → Text → Text → StatusCondition
status_condition now kind value reason = record {
  kind = kind;
  status = value;
  heartbeat = now;
  transition = now;
  reason = reason;
}

abbrev pub or_unknown : Option Text → Text
or_unknown none = codes "unknown"
or_unknown (some t) = trim_space t

abbrev pub image_of : Text → Option Text → Text
image_of goos none = goos
image_of goos (some t) = codes "macOS " ++ trim_space t

-- An amount of memory that fits a signed 64-bit integer
unfoldable pub known_memory : Option ℕ → Option ℕ
known_memory none = none
known_memory (some m) = if leb m (2 ^ 63 - 1) then some m else none

abbrev pub resources_of : HostFacts → Resources
resources_of facts = record {
  cpu = facts.cpus * 1000;
  pods = 110;
  memory = known_memory facts.memory;
}

unfoldable pub node_status : HostFacts → Text → Text → Text → ℕ → NodeStatus
unfolding addresses_of known_memory trim_space
node_status facts name node_ip external_ip now = record {
  addresses = addresses_of name node_ip external_ip;
  capacity = resources_of facts;
  allocatable = resources_of facts;
  conditions =
      status_condition now (codes "MemoryPressure") (codes "False")
        (codes "MacletHasSufficientMemory")
      ∷ status_condition now (codes "DiskPressure") (codes "False")
          (codes "MacletHasNoDiskPressure")
      ∷ status_condition now (codes "PIDPressure") (codes "False") (codes "MacletHasSufficientPID")
      ∷ status_condition now (codes "Ready") (codes "True") (codes "MacletReady")
      ∷ [];
  kubelet_port = 10250;
  kernel_version = or_unknown facts.kernel;
  os_image = image_of facts.goos facts.product_version;
}

module _ (table : ℕ → ℕ) where
  unfoldable pub is_taint_restriction : Reply → Bool
  unfolding contains_text to_lower
  is_taint_restriction (status code body) =
      eqb code 403 && contains_text (to_lower table body) (codes "not allowed to modify taints")
  is_taint_restriction (node_body n) = false
  is_taint_restriction (lease_body t) = false
  is_taint_restriction garbled = false
  is_taint_restriction unreachable = false

  unfoldable pub is_fallback_code : Reply → Bool
  is_fallback_code (status code body) = eqb code 404 || eqb code 405 || eqb code 415 || eqb code 501
  is_fallback_code (node_body n) = false
  is_fallback_code (lease_body t) = false
  is_fallback_code garbled = false
  is_fallback_code unreachable = false

  -- statusPatchNeedsFullFallback
  unfoldable pub needs_full_fallback : Reply → Bool
  unfolding is_taint_restriction is_fallback_code
  needs_full_fallback reply = is_taint_restriction reply || is_fallback_code reply

  -- `name_of` is the name of a Node as text, and `report` its status at this point.
  module _ (api : List Request → Request → Reply)
      (report : List Request → ClusterNode → NodeStatus) where
    unfoldable pub attempt_put : ℕ → ClusterNode → Api ClusterNode
    unfolding send is_taint_restriction is_conflict settle refresh_node
    attempt_put zero node = fail limit_exceeded
    attempt_put (suc n) node =
        let again = refresh_node api node.object.name >>= attempt_put n in
        (λ h. send api (put_status node (report h node)) h) >>= λ reply.
        if (is_taint_restriction reply || is_conflict reply) && ltb 0 n
        then again
        else settle api not_updated reply

    unfoldable pub attempt_patch : ℕ → ClusterNode → Api ClusterNode
    unfolding send needs_full_fallback is_conflict settle refresh_node attempt_put
    attempt_patch zero node = fail limit_exceeded
    attempt_patch (suc n) node =
        let again = refresh_node api node.object.name >>= attempt_patch n in
        (λ h.
          send api (patch_status node.object.name node.object.resource_version (report h node)) h)
        >>= λ reply.
            if needs_full_fallback reply
            then attempt_put attempts node
            else if is_conflict reply && ltb 0 n
            then again
            else settle api not_updated reply

    unfoldable pub update_node_status : ClusterNode → Api ClusterNode
    unfolding attempt_patch
    update_node_status node = attempt_patch attempts node
