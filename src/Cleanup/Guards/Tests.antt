-- ===== src/Cleanup/Guards/Tests.antt =====
-- Concrete runs of pkg/maclet/cleanup.go.
use maclet.Prelude.{ℕ, ◌≡◌, true, false, Option, none, some, List, [], ◌∷◌}
use maclet.Prelude.Text.{Text, codes}
use maclet.Workloads.Pods.{Pod}
use maclet.Cleanup.{refused, Server, Pass, cleanup_pod_list}
use maclet.Cleanup.Guards.{delete_calls, cleanup_pod_list-requests}

abbrev pod_named : Text → Option ℕ → Pod
pod_named name deleted_at = record {
  namespace = codes "default";
  name = name;
  uid = name;
  resource_version = [];
  native = true;
  node_name = codes "mac";
  deleted_at = deleted_at;
  host_network = false;
  dns_policy = codes "ClusterFirst";
  restart_policy = [];
  containers = [];
  status = record {
    phase = [];
    pod_ip = [];
    pod_ips = [];
    host_ip = [];
    reason = [];
    message = [];
    conditions = [];
    container_statuses = [];
  };
}

abbrev pods : List Pod
pods =
    pod_named (codes "a") (some 10)
    ∷ pod_named (codes "b") none
    ∷ pod_named (codes "c") (some 90)
    ∷ []

abbrev stubborn : Server
stubborn = record { lists = λ h. some pods; deletes = λ h p. refused }

abbrev start : Pass
start = record { removed = 0; errors = 0; requests = [] }

cleanup_pod_list-requests_example :
    (cleanup_pod_list stubborn (codes "mac") 45 100 pods start).requests
    ≡ delete_calls (codes "mac") 45 100 pods []
cleanup_pod_list-requests_example =
    cleanup_pod_list-requests stubborn (codes "mac") 45 100 pods start
