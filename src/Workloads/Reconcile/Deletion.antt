-- ===== src/Workloads/Reconcile/Deletion.antt =====
-- How a pass removes the workload of a Pod that is being deleted (pkg/maclet/workload_reconcile.go).
use maclet.Prelude.{ℕ, false, none, ltb, text_eq_instance, if◌then◌else◌}
use maclet.Prelude.Exec.{pure, gets}
use maclet.Prelude.Exec.Bind.{◌>>=◌, ◌>>◌}
use maclet.Prelude.Text.{codes}
use maclet.Go.Numbers.{ℤ}
use maclet.Workloads.Pods.{Pod}
use maclet.Workloads.Status.{Report}
use maclet.Workloads.Managed.{Managed, find}
use maclet.Workloads.Removal.{report, Outcome, done, ignorable, failed}
use maclet.Workloads.Reconcile.{
  not_removed, not_persisted, not_reported, Host, Settings, Flow, uid_of, note, see, keep, ask,
  retain, remove, persisted, workload_of_deleted,
}
use maclet.Workloads.Reconcile.Records.{or_workload}

module _ (host : Host) (settings : Settings) where
  abbrev pub deleted_report : Pod → ℤ → Report
  deleted_report p count = record {
    phase = codes "Failed";
    ip = p.status.pod_ip;
    reason = codes "MacletWorkloadDeleted";
    message = codes "maclet stopped the native workload for Pod deletion";
    running = false;
    restart_count = count;
    termination = none;
  }

  -- A Pod that is gone needs no report.
  unfoldable pub after_report : Pod → Outcome → Flow (Unit {0})
  unfolding note
  after_report p done = pure tt
  after_report p ignorable = pure tt
  after_report p failed = note (uid_of p) not_reported

  -- The journal and the report behind a removal
  unfoldable pub acknowledge : Pod → Managed → Flow (Unit {0})
  unfolding persisted note ask after_report
  acknowledge p m = do
    saved ← persisted host settings
    if saved then pure tt else note (uid_of p) not_persisted
    outcome ← ask host settings (report p (deleted_report p m.restart_count))
    after_report p outcome

  unfoldable pub remove_deleted : Pod → Flow (ℕ × Managed)
  unfolding see find workload_of_deleted remove
  remove_deleted p = do
    see (uid_of p)
    m ← gets (λ w.
        or_workload (find (uid_of p) w.manager.workloads)
          (workload_of_deleted settings.lower_table p))
    remove host settings m

  -- A workload whose removal had errors stays.
  unfoldable pub conclude : Pod → ℕ × Managed → Flow (Unit {0})
  unfolding keep note retain acknowledge
  conclude p (errors, m) =
      if ltb 0 errors
      then (note (uid_of p) not_removed >> keep m)
      else (retain host settings m >> acknowledge p m)

  -- A Pod whose deletion was asked for
  unfoldable pub delete_pod : Pod → Flow (Unit {0})
  unfolding remove_deleted conclude
  delete_pod p = remove_deleted p >>= conclude p
