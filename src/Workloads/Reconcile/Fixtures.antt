-- ===== src/Workloads/Reconcile/Fixtures.antt =====
-- A Node with one old workload and one new Pod, for concrete runs of a pass
-- (pkg/maclet/workload_reconcile.go).
use maclet.Prelude.{Bool, true, false, none, some, [], ◌∷◌, ok, if◌then◌else◌}
use maclet.Prelude.Text.{Text, codes}
use maclet.Go.Numbers.{pos}
use maclet.Network.Handle.{Handle}
use maclet.Workloads.Pods.{Pod}
use maclet.Workloads.Managed.{Managed}
use maclet.Workloads.Removal.{done}
use maclet.Workloads.Reconcile.{Host, Settings, World}

abbrev pub bridge : Handle
bridge = record {
  interface = codes "bridge100";
  pod_cidr = codes "10.42.3.0/29";
  gateway = codes "10.42.3.2";
  gateway_mac = [];
  peer_gateways = [];
  arps = [];
  routes = [];
  aliases = [];
}

-- Nothing fails, and Macker shows no container.
abbrev pub calm : Host
calm = record {
  outcome = λ calls c. done;
  now = λ calls. 100;
  container_status = λ calls name. ok none;
  inspection = λ calls name. ok none;
  prepared =
      λ calls p m. record { args = some (codes "run" ∷ []); volume_paths = []; nfs_mounts = [] };
  refreshed = λ calls p. none;
  explain = λ calls f. [];
}

abbrev pub settings : Settings
settings = record {
  network = some bridge;
  node_ip = codes "10.0.0.7";
  logs = true;
  log_ttl = 0;
  log_name = λ m. codes "log";
  lower_table = λ c. c;
}

abbrev pub old : Managed
old = record {
  uid = codes "u0";
  namespace = codes "default";
  name = codes "old";
  pod_container_name = codes "main";
  container_name = codes "maclet-default-old-u0";
  ip = codes "10.42.3.3";
  restart_count = pos 0;
  volume_paths = [];
  host_network = false;
  retained = false;
  log_file = [];
  log_expires_at = none;
  nfs_mounts = [];
  retry_after = none;
}

abbrev pub node_before : World
node_before = record {
  manager = record { workloads = old ∷ []; kept = [] };
  used = [];
  seen = [];
  errors = [];
  calls = [];
}

abbrev pub pod_named : Text → Bool → Pod
pod_named uid host_network = record {
  namespace = codes "default";
  name = codes "web";
  uid = uid;
  resource_version = codes "7";
  native = true;
  node_name = codes "mac";
  deleted_at = none;
  host_network = host_network;
  dns_policy = if host_network then codes "ClusterFirstWithHostNet" else codes "ClusterFirst";
  restart_policy = [];
  containers = record { name = codes "main"; image = codes "web:1" } ∷ [];
  status = record {
    phase = codes "Pending";
    pod_ip = [];
    pod_ips = [];
    host_ip = [];
    reason = [];
    message = [];
    conditions = [];
    container_statuses = [];
  };
}
