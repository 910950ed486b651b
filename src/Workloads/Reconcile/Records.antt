-- ===== src/Workloads/Reconcile/Records.antt =====
-- The record of a workload that a pass takes up, and the checks on a Pod before it
-- (pkg/maclet/workload_reconcile.go, workload_network.go).
use maclet.Prelude.{
  ℕ, Bool, true, false, not, ◌||◌, ◌&&◌, Option, none, some, List, [], ltb, ◌==◌, text_eq_instance,
  if◌then◌else◌,
}
use maclet.Prelude.Text.{codes}
use maclet.Workloads.Names.{workload_container_name, pod_restart_policy}
use maclet.Workloads.Pods.{Pod}
use maclet.Workloads.Status.{first_name}
use maclet.Workloads.Update.{first_restart_count}
use maclet.Workloads.Managed.{Managed, find}
use maclet.Workloads.Reconcile.{uid_of}

-- validateNativePodNetwork
unfoldable pub has_valid_network : Pod → Bool
has_valid_network p =
    if p.host_network
    then p.dns_policy == codes "ClusterFirstWithHostNet"
    else not (p.dns_policy == codes "ClusterFirstWithHostNet")

abbrev pub or_workload : Option Managed → Managed → Managed
or_workload none m = m
or_workload (some m) d = m

abbrev pub is_none {ℓ} : {A : Type ℓ} → Option A → Bool
is_none none = true
is_none (some a) = false

-- A workload that the manager takes up for a Pod
unfoldable pub new_workload : (ℕ → ℕ) → Pod → Managed
unfolding uid_of workload_container_name first_restart_count
new_workload table p = record {
  uid = uid_of p;
  namespace = [];
  name = [];
  pod_container_name = first_name p.containers;
  container_name = workload_container_name table p;
  ip = [];
  restart_count = first_restart_count p.status.container_statuses;
  volume_paths = [];
  host_network = false;
  retained = false;
  log_file = [];
  log_expires_at = none;
  nfs_mounts = [];
  retry_after = none;
}

-- Whether the workload is recorded as that of the Pod
unfoldable pub is_recorded_as : Managed → Pod → Bool
is_recorded_as m p =
    m.namespace == p.namespace
    && m.name == p.name
    && m.pod_container_name == first_name p.containers
    && (if m.host_network then p.host_network else not p.host_network)

unfoldable pub recorded_as : Managed → Pod → Managed
recorded_as m p = record m {
  namespace = p.namespace;
  name = p.name;
  pod_container_name = first_name p.containers;
  host_network = p.host_network;
}

-- The workload for a Pod, and whether the journal has to be written for it
unfoldable pub workload_for : (ℕ → ℕ) → Pod → List Managed → Managed × Bool
unfolding find new_workload is_recorded_as recorded_as
workload_for table p ws =
    let known = find (uid_of p) ws in
    let m = or_workload known (new_workload table p) in
    (recorded_as m p, is_none known || not (is_recorded_as m p))

unfoldable pub is_over : Pod → Bool
unfolding pod_restart_policy
is_over p =
    (p.status.phase == codes "Succeeded" || p.status.phase == codes "Failed")
    && not (pod_restart_policy p == codes "Always")

unfoldable pub waits : Option ℕ → ℕ → Bool
waits none now = false
waits (some t) now = ltb now t
