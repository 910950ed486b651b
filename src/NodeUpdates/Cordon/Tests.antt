-- ===== src/NodeUpdates/Cordon/Tests.antt =====
-- Concrete cordons of pkg/maclet/node.go.
use maclet.Prelude.Exec.Bind.{◌>>=◌}
use maclet.Prelude.{◌≡◌, refl, true, false, List, [], ◌∷◌, ok, length}
use maclet.Prelude.Exec.Triples.{Holds}
use maclet.Ownership.Ensure.{no_node}
use maclet.NodeUpdates.{ClusterNode, Request, Reply, node_body, status, set_node_shutdown_cordon}
use maclet.NodeUpdates.Cordon.{IsDone, set_node_shutdown_cordon-IsDone}

abbrev idle_node : ClusterNode
idle_node = record {
  object = record no_node { name = "mac" };
  unschedulable = false;
  pod_cidr = [];
  pod_cidrs = [];
}

-- The first request meets a conflict, every other one is answered with the Node.
abbrev contended : List Request → Request → Reply
contended [] r = status 409 []
contended (q ∷ qs) r = node_body idle_node

set_node_shutdown_cordon-IsDone_example :
    Holds
      (IsDone contended true)
      (set_node_shutdown_cordon contended idle_node true []).0
      (set_node_shutdown_cordon contended idle_node true []).1
set_node_shutdown_cordon-IsDone_example =
    set_node_shutdown_cordon-IsDone contended true idle_node []

cordoned : (set_node_shutdown_cordon contended idle_node true []).0 ≡ ok idle_node
unfolding set_node_shutdown_cordon ◌>>=◌
cordoned = refl

three_requests : length (set_node_shutdown_cordon contended idle_node true []).1 ≡ 3
unfolding set_node_shutdown_cordon ◌>>=◌
three_requests = refl
