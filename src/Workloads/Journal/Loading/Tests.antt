-- ===== src/Workloads/Journal/Loading/Tests.antt =====
-- A concrete journal (pkg/maclet/workload_manager.go).
use maclet.Prelude.{◌≡◌, refl, Bool, true, false, some, [], ◌∷◌, ok}
use maclet.Prelude.Text.{Text, codes}
use maclet.Go.Numbers.{pos}
use maclet.Workloads.Managed.{Managed, Manager, find}
use maclet.Workloads.Journal.{journal_of, load_records}
use maclet.Workloads.Journal.Loading.{empty_manager, without_retry, load_records-journal_of}

abbrev workload : Text → Bool → Managed
workload uid retained = record {
  uid = uid;
  namespace = codes "default";
  name = uid;
  pod_container_name = codes "main";
  container_name = codes "maclet";
  ip = codes "10.42.3.3";
  restart_count = pos 2;
  volume_paths = [];
  host_network = false;
  retained = retained;
  log_file = [];
  log_expires_at = some 7;
  nfs_mounts = [];
  retry_after = some 9;
}

abbrev manager : Manager
manager = record {
  workloads = workload (codes "u2") false ∷ workload (codes "u1") false ∷ [];
  kept = workload (codes "u0") true ∷ [];
}

load_records-journal_of_example :
    ((load_records (journal_of manager) empty_manager).0 ≡ ok tt)
    × (find (codes "u1") (load_records (journal_of manager) empty_manager).1.workloads
        ≡ some (without_retry (workload (codes "u1") false)))
unfolding journal_of find
load_records-journal_of_example =
    load_records-journal_of manager (codes "u1") (workload (codes "u1") false) refl
      (refl, (refl, (refl, tt))) refl refl
