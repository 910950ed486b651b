-- ===== src/Workloads/Reconcile/Launch.antt =====
-- What a pass does with the container of one Pod (pkg/maclet/workload_reconcile.go from the look at its
-- status on, and startMackerWorkload of pkg/maclet/workload_manager.go).
use maclet.Prelude.{
  Bool, true, false, Option, none, some, List, [], ltb, ◌==◌, text_eq_instance, if◌then◌else◌,
  Result, ok, err,
}
use maclet.Prelude.Exec.{pure, fail, gets}
use maclet.Prelude.Exec.Bind.{◌>>=◌, ◌>>◌}
use maclet.Prelude.Text.{Text, codes}
use maclet.Workloads.Pods.{Pod, Inspection}
use maclet.Workloads.Status.{first_image}
use maclet.Workloads.Managed.{Managed}
use maclet.Workloads.Removal.{
  read_status, read_inspection, refresh_volumes, prepare, wait_running, pull, start_run, Outcome,
  done, ignorable, failed, is_empty,
}
use maclet.Workloads.Reconcile.{
  Fault, not_persisted, no_macker, not_inspected, not_stopped, not_prepared, not_started,
  not_running, Host, Settings, Flow, uid_of, skip, skip_pod, note, keep, is_done, ask, retain,
  archive_logs_of, remove, stop_container_of, retry_later, explained, pending, refuse,
  report_or_note, persisted, replace_volume_paths,
}
use maclet.Workloads.Reconcile.Endings.{
  next_count, on_failure, stays_ended, ending_of, running_report, ended_report,
}

-- How a Pod ends: its phase, the reason and the message
module _ (host : Host) (settings : Settings) where
  -- A missing image is pulled once, and the run is tried again.
  unfoldable pub after_run : List Text → Text → Outcome → Flow Bool
  unfolding ask
  after_run args image done = pure true
  after_run args image failed = pure false
  after_run args image ignorable =
      if image == []
      then pure false
      else ask host settings (pull image) >>= λ pulled.
          if is_done pulled
          then (ask host settings (start_run args) >>= λ o. pure (is_done o))
          else pure false

  -- startMackerWorkload
  unfoldable pub start_workload : List Text → Text → Flow Bool
  unfolding ask after_run
  start_workload args image = do
    outcome ← ask host settings (start_run args)
    after_run args image outcome

  -- A failure that is tried again later, with a report
  unfoldable pub refuse_launch : Pod → Managed → Text → Fault → Text → Flow (Unit {0})
  unfolding note retry_later refuse explained pending
  refuse_launch p m ip fault reason = do
    retry_later host settings m
    refuse host settings p ip fault reason m.restart_count

  -- A failure that is tried again later, without a report
  unfoldable pub put_off : Pod → Managed → Fault → Flow (Unit {0})
  unfolding note retry_later
  put_off p m fault = do note (uid_of p) fault; retry_later host settings m; skip

  -- A workload that stays ended: it is retained, and the Pod gets its last report.
  unfoldable pub finish : Pod → Managed → Text → Option Inspection → Flow (Unit {0})
  unfolding archive_logs_of stop_container_of retain persisted note report_or_note ending_of
      on_failure
  finish p m ip inspection = do
    m' ← archive_logs_of host settings m
    stop_container_of host settings m'
    retain host settings m'
    saved ← persisted host settings
    if saved then pure tt else note (uid_of p) not_persisted
    report_or_note host settings p
        (ended_report ip m'.restart_count inspection (ending_of (on_failure p) inspection))
    skip

  -- A workload that is started again
  unfoldable pub clear_for_restart : Pod → Managed → Flow Managed
  unfolding archive_logs_of keep stop_container_of put_off persisted next_count
  clear_for_restart p m = do
    m' ← archive_logs_of host settings m
    keep m'
    errors ← stop_container_of host settings m'
    if ltb 0 errors then put_off p m' not_stopped else pure tt
    let m'' = record m' { restart_count = next_count m'.restart_count }
    keep m''
    saved ← persisted host settings
    if saved then pure tt else put_off p m'' not_persisted
    pure m''

  unfoldable pub after_inspection :
      Pod → Managed → Text → Result (Unit {0}) (Option Inspection) → Flow Managed
  unfolding finish clear_for_restart put_off stays_ended
  after_inspection p m ip (err e) = put_off p m not_inspected >> fail skip_pod
  after_inspection p m ip (ok inspection) =
      if stays_ended p then (finish p m ip inspection >> fail skip_pod) else clear_for_restart p m

  unfoldable pub exited : Pod → Managed → Text → Flow Managed
  unfolding ask after_inspection
  exited p m ip = do
    ask host settings (read_inspection m.container_name)
    shown ← gets (λ w. host.inspection w.calls m.container_name)
    after_inspection p m ip shown

  unfoldable pub with_fresh : Managed → Option (List Text) → Flow Managed
  unfolding replace_volume_paths
  with_fresh m none w = (ok m, w)
  with_fresh m (some paths) w = (
    ok (record m { volume_paths = paths }),
    record w { calls = replace_volume_paths paths m.volume_paths w.calls },
  )

  -- The workload runs: its ConfigMap volumes are renewed, and the Pod is reported as running.
  unfoldable pub still_running : Pod → Managed → Text → Flow (Unit {0})
  unfolding ask keep report_or_note with_fresh
  still_running p m ip = do
    ask host settings (refresh_volumes m.uid)
    fresh ← gets (λ w. host.refreshed w.calls p)
    m' ← with_fresh m fresh
    keep (record m' { retry_after = none })
    report_or_note host settings p
        (running_report ip (codes "Macker is running the trusted native workload") m'.restart_count)

  unfoldable pub save_mounts : Pod → Managed → Text → Flow (Unit {0})
  unfolding persisted refuse_launch
  save_mounts p m ip =
      if is_empty m.nfs_mounts
      then pure tt
      else persisted host settings >>= λ saved.
          if saved
          then pure tt
          else refuse_launch p m ip not_persisted (codes "MacletOwnershipPersistFailed")

  unfoldable pub after_arguments :
      Pod → Managed → Text → Option (List Text) → Flow (List Text × Managed)
  unfolding refuse_launch
  after_arguments p m ip none =
      refuse_launch p m ip not_prepared (codes "MacletMackerLaunchFailed") >> fail skip_pod
  after_arguments p m ip (some args) = pure (args, m)

  -- The arguments of the run and what their preparation leaves in the workload
  unfoldable pub prepare_run : Pod → Managed → Text → Flow (List Text × Managed)
  unfolding ask keep after_arguments
  prepare_run p m ip = do
    ask host settings (prepare m.uid)
    made ← gets (λ w. host.prepared w.calls p m)
    let m' = record m { volume_paths = made.volume_paths; nfs_mounts = made.nfs_mounts }
    keep m'
    after_arguments p m' ip made.args

  -- A workload that the journal does not hold is removed again.
  unfoldable pub give_up : Pod → Managed → Text → Flow (Unit {0})
  unfolding remove refuse_launch
  give_up p m ip = remove host settings m >>= λ r.
      refuse_launch p r.1 ip not_persisted (codes "MacletOwnershipPersistFailed")

  -- The workload runs: the journal is written, and the Pod is reported as running.
  unfoldable pub establish : Pod → Managed → Text → Flow (Unit {0})
  unfolding persisted give_up keep report_or_note
  establish p m ip = do
    saved ← persisted host settings
    if saved then pure tt else give_up p m ip
    keep (record m { retry_after = none })
    report_or_note host settings p
        (running_report ip (codes "Macker started the trusted native workload") m.restart_count)

  unfoldable pub launch : Pod → Managed → Text → Flow (Unit {0})
  unfolding ask prepare_run save_mounts start_workload refuse_launch stop_container_of establish
  launch p m ip = do
    (args, m') ← prepare_run p m ip
    save_mounts p m' ip
    started ← start_workload args (first_image p.containers)
    if started
        then pure tt
        else refuse_launch p m' ip not_started (codes "MacletMackerLaunchFailed")
    up ← ask host settings (wait_running m'.container_name)
    if is_done up then pure tt else (do
      stop_container_of host settings m'
      refuse_launch p m' ip not_running (codes "MacletMackerLaunchFailed"))
    establish p m' ip

  unfoldable pub after_status :
      Pod → Managed → Text → Result (Unit {0}) (Option Text) → Flow (Unit {0})
  unfolding refuse_launch still_running exited launch
  after_status p m ip (err e) = refuse_launch p m ip no_macker (codes "MacletMackerUnavailable")
  after_status p m ip (ok none) = launch p m ip
  after_status p m ip (ok (some status)) =
      if status == codes "running"
      then still_running p m ip
      else (exited p m ip >>= λ m'. launch p m' ip)

  -- From the look at the container's status on
  unfoldable pub run_container : Pod → Managed → Text → Flow (Unit {0})
  unfolding ask after_status
  run_container p m ip = do
    ask host settings (read_status m.container_name)
    shown ← gets (λ w. host.container_status w.calls m.container_name)
    after_status p m ip shown
