-- ===== src/NodeUpdates/Bounds/Tests.antt =====
-- A server that answers each update of pkg/maclet/node.go with a conflict.
use maclet.Prelude.Exec.Bind.{◌>>=◌}
use maclet.Prelude.{◌≡◌, refl, false, none, List, [], length}
use maclet.Ownership.Ensure.{no_node}
use maclet.NodeUpdates.{
  ClusterNode, NodeStatus, Request, get_node, patch_cordon, get_lease, patch_status, put_status,
  create_lease, renew_lease, Reply, node_body, status,
}
use maclet.NodeUpdates.Status.{node_status, update_node_status}

abbrev idle_node : ClusterNode
idle_node = record {
  object = record no_node { name = "mac" };
  unschedulable = false;
  pod_cidr = [];
  pod_cidrs = [];
}

abbrev stubborn : List Request → Request → Reply
stubborn h (get_node name) = node_body idle_node
stubborn h (patch_cordon name c) = status 409 []
stubborn h (get_lease name) = status 409 []
stubborn h (patch_status n v s) = status 409 []
stubborn h (put_status n s) = status 409 []
stubborn h (create_lease s) = status 409 []
stubborn h (renew_lease s) = status 409 []

abbrev report : List Request → ClusterNode → NodeStatus
report h n =
    node_status record { kernel = none; product_version = none; goos = []; cpus = 8; memory = none }
      [] [] [] 0

nine_requests : length (update_node_status (λ c. c) stubborn report idle_node []).1 ≡ 9
unfolding update_node_status ◌>>=◌
nine_requests = refl
