-- ===== src/Workloads/Update/Retries/Tests.antt =====
-- Concrete runs of updatePodStatus (pkg/maclet/workload_status.go).
use maclet.Prelude.{
  ◌+◌, ◌≤◌, ◌≡◌, refl, true, false, none, some, List, [], ◌∷◌, text_eq_instance, length,
}
use maclet.Prelude.Text.{codes}
use maclet.Go.Numbers.{ℤ, pos}
use maclet.Workloads.Pods.{Pod, ContainerStatus, terminated, running_since, waiting}
use maclet.Workloads.Status.{Report, desired_pod_status}
use maclet.Workloads.Update.{
  Request, put_status, get_pod, Reply, status, found, renewed, update_pod_status,
}
use maclet.Workloads.Update.Retries.{IsRounds, update_pod_status-IsRounds}

abbrev pod : Pod
pod = record {
  namespace = codes "default";
  name = codes "job";
  uid = codes "u1";
  resource_version = codes "7";
  native = true;
  node_name = codes "mac";
  deleted_at = none;
  host_network = false;
  dns_policy = codes "ClusterFirst";
  restart_policy = codes "Never";
  containers = [];
  status = record {
    phase = codes "Running";
    pod_ip = [];
    pod_ips = [];
    host_ip = [];
    reason = [];
    message = [];
    conditions = [];
    container_statuses = [];
  };
}

-- A workload that ended with exit code 3.
abbrev ended : Report
ended = record {
  phase = codes "Failed";
  ip = codes "10.42.3.3";
  reason = codes "MacletWorkloadFailed";
  message = codes "Macker workload exited with code 3";
  running = false;
  restart_count = pos 1;
  termination = some record {
    exit_code = some (pos 3);
    started_at = some 1;
    finished_at = some 2;
    termination_reason = [];
    termination_signal = [];
  };
}

-- A server that reports a conflict on each write.
abbrev busy : List Request → Request → Reply
busy h (put_status p s) = status 409
busy h (get_pod namespace name) = found pod

update_pod_status-IsRounds_example :
    IsRounds busy length [] 5 pod ended 5 []
      (update_pod_status busy length pod (desired_pod_status pod [] ended 5) []).1
    × (length (update_pod_status busy length pod (desired_pod_status pod [] ended 5) []).1 ≤ 0 + 9)
update_pod_status-IsRounds_example = update_pod_status-IsRounds busy length [] pod ended 5 []

abbrev exit_codes : List ContainerStatus → List ℤ
exit_codes [] = []
exit_codes (c ∷ cs) = elim c.state [
  | terminated t ↦ t.exit_code ∷ exit_codes cs
  | running_since t ↦ exit_codes cs
  | waiting r m ↦ exit_codes cs
]

-- The exit code is sent at first, and is lost when the write meets a conflict.
sent_first : exit_codes (desired_pod_status pod [] ended 5).container_statuses ≡ pos 3 ∷ []
unfolding desired_pod_status
sent_first = refl

sent_again :
    exit_codes (renewed (desired_pod_status pod [] ended 5) pod 6).container_statuses ≡ pos 0 ∷ []
unfolding renewed
sent_again = refl

asks_nine_times :
    length (update_pod_status busy length pod (desired_pod_status pod [] ended 5) []).1 ≡ 9
unfolding update_pod_status
asks_nine_times = refl
