-- ===== src/Workloads/Status/Conditions/Tests.antt =====
-- Concrete runs of pkg/maclet/workload_status.go: conditions.
use maclet.Prelude.{refl, ◌≡◌, true, false, none, some, List, [], ◌∷◌}
use maclet.Prelude.Text.{codes}
use maclet.Go.Numbers.{pos}
use maclet.Workloads.Pods.{Condition, PodStatus, Pod}
use maclet.Workloads.Status.{initialized, scheduled, readiness, Report, desired_pod_status}
use maclet.Workloads.Status.Conditions.{find, count}

-- A list that has one kind twice.
abbrev twice : List Condition
twice = scheduled 1 ∷ initialized 2 ∷ scheduled 3 ∷ []

abbrev fresh_status : PodStatus
fresh_status = record {
  phase = codes "Pending";
  pod_ip = [];
  pod_ips = [];
  host_ip = [];
  reason = [];
  message = [];
  conditions = twice;
  container_statuses = [];
}

abbrev pod : Pod
pod = record {
  namespace = codes "default";
  name = codes "web";
  uid = codes "u1";
  resource_version = codes "7";
  native = true;
  node_name = codes "mac";
  deleted_at = none;
  host_network = false;
  dns_policy = codes "ClusterFirst";
  restart_policy = codes "Always";
  containers = [];
  status = fresh_status;
}

abbrev up : Report
up = record {
  phase = codes "Running";
  ip = codes "10.42.3.3";
  reason = [];
  message = [];
  running = true;
  restart_count = pos 0;
  termination = none;
}

ready_once : count (codes "Ready") (desired_pod_status pod [] up 5).conditions ≡ 1
unfolding desired_pod_status
ready_once = refl

ready_condition :
    find (codes "Ready") (desired_pod_status pod [] up 5).conditions
    ≡ some (readiness (codes "Ready") true 5)
unfolding desired_pod_status
ready_condition = refl
