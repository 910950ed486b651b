-- ===== src/Workloads/Journal.antt =====
-- The journal of the workloads: loadJournalLocked and persistJournalLocked
-- (pkg/maclet/workload_manager.go). The file is the version and the records that its JSON holds.
pub mod Sorting
pub mod Loading
use maclet.Prelude.{
  ℕ, Bool, true, false, not, ◌||◌, ◌&&◌, Option, none, some, List, [], ◌∷◌, ◌++◌, eqb, ltb, ◌==◌,
  text_eq_instance, map, if◌then◌else◌, Result, ok, err,
}
use maclet.Prelude.Text.{Text}
use maclet.Go.Numbers.{ℤ}
use maclet.Nfs.Mount.{MountRecord}
use maclet.Workloads.Managed.{Managed, Manager, put, prune_retained_logs}

-- A time in a record: left out, no RFC 3339 text, or a time
pub data Stamp : Type 0 where
  unset unreadable : Stamp
  at_time : ℕ → Stamp

pub record JournalRecord : Type 0 where
  pub uid : Text
  pub namespace : Text
  pub name : Text
  pub container_name : Text
  pub pod_container_name : Text
  pub ip : Text
  pub restart_count : ℤ
  pub volume_paths : List Text
  pub host_network : Bool
  pub retained : Bool
  pub log_file : Text
  pub log_expires_at : Stamp
  pub nfs_mounts : List MountRecord

pub data JournalError : Type 0 where
  unsupported_version incomplete_record : JournalError

abbrev pub stamp_of : Option ℕ → Stamp
stamp_of none = unset
stamp_of (some t) = at_time t

abbrev pub time_of : Stamp → Option ℕ
time_of unset = none
time_of unreadable = none
time_of (at_time t) = some t

unfoldable pub record_of : Managed → JournalRecord
record_of w = record {
  uid = w.uid;
  namespace = w.namespace;
  name = w.name;
  container_name = w.container_name;
  pod_container_name = w.pod_container_name;
  ip = w.ip;
  restart_count = w.restart_count;
  volume_paths = w.volume_paths;
  host_network = w.host_network;
  retained = w.retained;
  log_file = w.log_file;
  log_expires_at = stamp_of w.log_expires_at;
  nfs_mounts = w.nfs_mounts;
}

unfoldable pub workload_of : JournalRecord → Managed
workload_of r = record {
  uid = r.uid;
  namespace = r.namespace;
  name = r.name;
  pod_container_name = r.pod_container_name;
  container_name = r.container_name;
  ip = r.ip;
  restart_count = r.restart_count;
  volume_paths = r.volume_paths;
  host_network = r.host_network;
  retained = r.retained;
  log_file = r.log_file;
  log_expires_at = time_of r.log_expires_at;
  nfs_mounts = r.nfs_mounts;
  retry_after = none;
}

-- The order of Go's strings: UTF-8 keeps the order of the code points.
unfoldable pub text_less : Text → Text → Bool
text_less xs [] = false
text_less [] (y ∷ ys) = true
text_less (x ∷ xs) (y ∷ ys) = ltb x y || eqb x y && text_less xs ys

unfoldable pub insert_record : JournalRecord → List JournalRecord → List JournalRecord
unfolding text_less
insert_record r [] = r ∷ []
insert_record r (x ∷ xs) =
    let rest = insert_record r xs in if text_less x.uid r.uid then x ∷ rest else r ∷ x ∷ xs

unfoldable pub sort_records : List JournalRecord → List JournalRecord
unfolding insert_record
sort_records [] = []
sort_records (r ∷ rs) = insert_record r (sort_records rs)

-- What persistJournalLocked writes
unfoldable pub journal_of : Manager → List JournalRecord
unfolding sort_records record_of
journal_of m = sort_records (map record_of (m.workloads ++ m.kept))

unfoldable pub place : Managed → Manager → Manager
unfolding put
place w m =
    if w.retained
    then record m { kept = put w m.kept }
    else record m { workloads = put w m.workloads }

-- The loop over the records; what was placed before an incomplete record stays.
unfoldable pub load_records :
    List JournalRecord → Manager → Result JournalError (Unit {0}) × Manager
unfolding place workload_of
load_records [] m = (ok tt, m)
load_records (r ∷ rs) m =
    let rest = load_records rs (place (workload_of r) m) in
    if r.uid == [] || r.container_name == [] then (err incomplete_record, m) else rest

-- The manager after loading, with whether the journal is written again because something expired
unfoldable pub load_journal :
    ℕ → ℕ → List JournalRecord → Manager → Result JournalError Bool × Manager
unfolding load_records prune_retained_logs
load_journal now version records m =
    if not (eqb version 1)
    then (err unsupported_version, m)
    else (let (r, m') = load_records records m in
        elim r [
          | ok u ↦ (ok (prune_retained_logs now m').0, (prune_retained_logs now m').1)
          | err e ↦ (err e, m')
        ])
