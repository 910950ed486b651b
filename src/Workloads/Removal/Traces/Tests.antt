-- ===== src/Workloads/Removal/Traces/Tests.antt =====
-- Concrete runs of the manager's cleanup (pkg/maclet/workload_network.go, workload_reconcile.go).
use maclet.Prelude.{◌≡◌, refl, text_eq_instance, true, false, none, List, [], ◌∷◌}
use maclet.Prelude.Text.{Text, codes}
use maclet.Go.Numbers.{pos}
use maclet.Nfs.Mount.{MountRecord}
use maclet.Workloads.Managed.{Managed, Manager, find}
use maclet.Workloads.Removal.{
  Call, unmount, remove_all, Outcome, done, failed, unmount_all, cleanup,
}
use maclet.Workloads.Removal.Traces.{is_known, mount_calls, unmount_all-calls}

abbrev data_mount : MountRecord
data_mount = record {
  target = codes "/state/nfs/web/data";
  spec = record {
    server = codes "10.0.0.2";
    share = codes "/export";
    mount_options = [];
    read_only = false;
    legacy_flags = false;
  };
}

abbrev web : Managed
web = record {
  uid = codes "u1";
  namespace = codes "default";
  name = codes "web";
  pod_container_name = codes "main";
  container_name = codes "maclet-default-web-u1";
  ip = codes "10.42.3.3";
  restart_count = pos 0;
  volume_paths = [];
  host_network = false;
  retained = false;
  log_file = [];
  log_expires_at = none;
  nfs_mounts = data_mount ∷ [];
  retry_after = none;
}

abbrev manager : Manager
manager = record { workloads = web ∷ []; kept = [] }

-- A Mac where nothing can be unmounted.
abbrev busy_mounts : List Call → Call → Outcome
busy_mounts h (unmount t) = failed
busy_mounts h c = done

abbrev log_name : Managed → Text
log_name w = codes "web.log"

unmount_all-calls_example :
    (unmount_all busy_mounts (data_mount ∷ []) []).1 ≡ mount_calls (data_mount ∷ []) []
unmount_all-calls_example = unmount_all-calls busy_mounts (data_mount ∷ []) []

-- The recursive removal comes after an unmount that failed.
removed_while_mounted :
    (unmount_all busy_mounts (data_mount ∷ []) []).1
    ≡ remove_all (codes "/state/nfs/web/data") ∷ unmount (codes "/state/nfs/web/data") ∷ []
unfolding unmount_all
removed_while_mounted = refl

-- What cannot be unmounted is running still, and one error is returned.
still_recorded :
    (is_known
        (find (codes "u1") (cleanup busy_mounts true true 0 100 log_name manager []).1.workloads)
      ≡ true)
    × ((cleanup busy_mounts true true 0 100 log_name manager []).0 ≡ 1)
unfolding cleanup find
still_recorded = (refl, refl)
