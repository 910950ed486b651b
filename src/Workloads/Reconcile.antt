-- ===== src/Workloads/Reconcile.antt =====
-- What a pass of the manager's reconcile (pkg/maclet/workload_reconcile.go) works on: the manager, the
-- addresses in use, the UIDs seen, the errors so far, and the calls made, both newest first. What the
-- surroundings answer may depend on all calls before.
pub mod Endings
pub mod Launch
pub mod Records
pub mod Deletion
pub mod Assigned
pub mod Pass
pub mod Actions
pub mod Removals
pub mod Started
pub mod Kept
pub mod WholePass
pub mod Invariants
pub mod Safety
pub mod Settled
pub mod Visits
pub mod Convergence
pub mod Fixtures
use maclet.Prelude.{
  ℕ, suc, ◌+◌, Bool, true, false, not, ◌||◌, ◌&&◌, Option, none, some, List, [], ◌∷◌, ◌++◌, ltb,
  eqb, ◌==◌, text_eq_instance, text_eq, contains, if◌then◌else◌, Result, ok, err,
}
use maclet.Prelude.Exec.{Exec, pure, fail}
use maclet.Prelude.Exec.Bind.{◌>>=◌, ◌>>◌}
use maclet.Prelude.Text.{Text, codes, itoa}
use maclet.Go.Numbers.{ℤ, pos, negsuc}
use maclet.Nfs.Mount.{MountRecord}
use maclet.Network.Handle.{Handle}
use maclet.Workloads.Pods.{Container, Pod, Inspection}
use maclet.Workloads.Names.{workload_container_name}
use maclet.Workloads.Status.{Report, first_name}
use maclet.Workloads.Managed.{Managed, Manager, find, put, retain_workload}
use maclet.Workloads.Removal.{
  Call, persist, report, remove_all, Outcome, done, ignorable, failed, Step, archive, stop,
  remove_workload,
}

pub data Fault : Type 0 where
  not_pruned not_removed not_persisted not_reported unsupported_network no_network : Fault
  not_allocated invalid_ip ip_not_removed ip_not_added several_containers : Fault
  no_macker not_inspected not_stopped not_prepared not_started not_running : Fault

-- An error that a pass collects, with the UID of its workload
pub record Trouble : Type 0 where
  pub fault : Fault
  pub uid : Text

-- What runArgsWithContext returns, none for its error, and what it leaves in the workload
pub record Prepared : Type 0 where
  pub args : Option (List Text)
  pub volume_paths : List Text
  pub nfs_mounts : List MountRecord

-- What the manager relies on. A status or an inspection is an error, nothing, or what Macker shows;
-- `refreshed` is none where refreshConfigMapVolumes fails, and `explain` is the text of an error.
pub record Host : Type 0 where
  pub outcome : List Call → Call → Outcome
  pub now : List Call → ℕ
  pub container_status : List Call → Text → Result (Unit {0}) (Option Text)
  pub inspection : List Call → Text → Result (Unit {0}) (Option Inspection)
  pub prepared : List Call → Pod → Managed → Prepared
  pub refreshed : List Call → Pod → Option (List Text)
  pub explain : List Call → Fault → Text

-- What the manager was made with
pub record Settings : Type 0 where
  pub network : Option Handle
  pub node_ip : Text
  pub logs : Bool
  pub log_ttl : ℕ
  pub log_name : Managed → Text
  pub lower_table : ℕ → ℕ

pub record World : Type 0 where
  pub manager : Manager
  pub used : List Text
  pub seen : List Text
  pub errors : List Trouble
  pub calls : List Call

-- The `continue` of the loop over the Pods
pub data Skip : Type 0 where
  skip_pod : Skip

abbrev pub Flow : Type 0 → Type 0
Flow A = Exec Skip World A

-- In seconds
abbrev pub retry_delay : ℕ
retry_delay = 10

unfoldable pub uid_of : Pod → Text
uid_of p = if p.uid == [] then p.namespace ++ codes "/" ++ p.name else p.uid

abbrev pub skip : Flow (Unit {0})
skip = fail skip_pod

unfoldable pub note : Text → Fault → Flow (Unit {0})
note uid f w = (ok tt, record w { errors = record { fault = f; uid = uid } ∷ w.errors })

unfoldable pub see : Text → Flow (Unit {0})
see uid w = (ok tt, record w { seen = uid ∷ w.seen })

unfoldable pub use_address : Text → Flow (Unit {0})
use_address ip w = (ok tt, record w { used = ip ∷ w.used })

-- The workload is changed in place, so the map has what it is now.
unfoldable pub keep : Managed → Flow (Unit {0})
unfolding put
keep m w =
    (ok tt, record w { manager = record w.manager { workloads = put m w.manager.workloads } })

abbrev pub is_done : Outcome → Bool
is_done done = true
is_done ignorable = false
is_done failed = false

abbrev pub has_network : Option Handle → Bool
has_network none = false
has_network (some h) = true

module _ (host : Host) (settings : Settings) where
  unfoldable pub ask : Call → Flow Outcome
  ask c w = (ok (host.outcome w.calls c), record w { calls = c ∷ w.calls })

  unfoldable pub explained : Fault → Flow Text
  explained f w = (ok (host.explain w.calls f), w)

  unfoldable pub retain : Managed → Flow (Unit {0})
  unfolding retain_workload
  retain m w = (
    ok tt,
    record w { manager = retain_workload settings.log_ttl (host.now w.calls) m w.manager },
  )

  -- The steps of the removal that only count their errors
  unfoldable pub by_step : Step → Flow ℕ
  by_step f w = let (errors, calls) = f w.calls in (ok errors, record w { calls = calls })

  unfoldable pub archive_logs_of : Managed → Flow Managed
  unfolding archive
  archive_logs_of m w =
      let network = has_network settings.network in
      let (m', calls) =
        archive host.outcome network settings.logs settings.log_ttl (host.now w.calls)
          settings.log_name m w.calls in
      (ok m', record w { calls = calls })

  unfoldable pub remove : Managed → Flow (ℕ × Managed)
  unfolding remove_workload
  remove m w =
      let network = has_network settings.network in
      let (errors, m', calls) =
        remove_workload host.outcome network settings.logs settings.log_ttl (host.now w.calls)
          settings.log_name m w.calls in
      (ok (errors, m'), record w { calls = calls })

  unfoldable pub stop_container_of : Managed → Flow ℕ
  unfolding by_step stop
  stop_container_of m = by_step (stop host.outcome m.container_name)

  -- managed.RetryAfter = time.Now().Add(workloadRetryDelay)
  unfoldable pub retry_later : Managed → Flow (Unit {0})
  unfolding keep
  retry_later m w = keep (record m { retry_after = some (host.now w.calls + retry_delay) }) w

  -- A status update whose error is left out
  unfoldable pub pending : Pod → Text → Text → Text → ℤ → Flow (Unit {0})
  unfolding ask
  pending p ip reason message count =
      ask (
        report p record {
          phase = codes "Pending";
          ip = ip;
          reason = reason;
          message = message;
          running = false;
          restart_count = count;
          termination = none;
        })
      >> pure tt

  -- What every refusal does: the error is collected, the Pod waits with its text, and is left.
  unfoldable pub refuse : Pod → Text → Fault → Text → ℤ → Flow (Unit {0})
  unfolding note explained pending
  refuse p ip fault reason count = do
    note (uid_of p) fault
    message ← explained fault
    pending p ip reason message count
    skip

  -- A status update whose error is collected
  unfoldable pub report_or_note : Pod → Report → Flow (Unit {0})
  unfolding ask note
  report_or_note p r = do
    outcome ← ask (report p r)
    if is_done outcome then pure tt else note (uid_of p) not_reported

  unfoldable pub persisted : Flow Bool
  unfolding ask
  persisted = ask persist >>= λ outcome. pure (is_done outcome)

-- replaceManagedVolumePaths: the paths that are not kept are removed.
unfoldable pub replace_volume_paths : List Text → List Text → List Call → List Call
unfolding contains
replace_volume_paths kept [] h = h
replace_volume_paths kept (p ∷ ps) h =
    if contains kept p
    then replace_volume_paths kept ps h
    else replace_volume_paths kept ps (remove_all p ∷ h)

-- The workload of a deleted Pod that the manager does not run
unfoldable pub workload_of_deleted : (ℕ → ℕ) → Pod → Managed
unfolding uid_of workload_container_name
workload_of_deleted table p = record {
  uid = uid_of p;
  namespace = p.namespace;
  name = p.name;
  pod_container_name = first_name p.containers;
  container_name = workload_container_name table p;
  ip = p.status.pod_ip;
  restart_count = pos 0;
  volume_paths = [];
  host_network = p.host_network;
  retained = false;
  log_file = [];
  log_expires_at = none;
  nfs_mounts = [];
  retry_after = none;
}
