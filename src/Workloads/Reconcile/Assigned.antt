-- ===== src/Workloads/Reconcile/Assigned.antt =====
-- What a pass does for a Pod that is assigned to the Node: its record, its address and its start
-- (pkg/maclet/workload_reconcile.go).
use maclet.Prelude.{
  false, not, ◌&&◌, Option, none, some, [], eqb, length, ◌==◌, text_eq_instance, contains,
  if◌then◌else◌, Result, ok, err,
}
use maclet.Prelude.Exec.{pure, fail, gets}
use maclet.Prelude.Exec.Bind.{◌>>=◌, ◌>>◌}
use maclet.Prelude.Text.{Text, codes}
use maclet.Go.Numbers.{pos}
use maclet.Network.Addresses.{NetError}
use maclet.Network.Handle.{Handle, handle_first_available, handle_validate_address}
use maclet.Workloads.Pods.{Pod}
use maclet.Workloads.Managed.{Managed}
use maclet.Workloads.Removal.{add_ip, release_ip}
use maclet.Workloads.Reconcile.{
  not_persisted, unsupported_network, no_network, not_allocated, invalid_ip, ip_not_removed,
  ip_not_added, several_containers, Host, Settings, skip_pod, Flow, uid_of, note, see, use_address,
  keep, is_done, ask, explained, refuse, report_or_note, persisted,
}
use maclet.Workloads.Reconcile.Launch.{put_off, run_container}
use maclet.Workloads.Reconcile.Records.{has_valid_network, workload_for, is_over, waits}

module _ (host : Host) (settings : Settings) where
  -- The journal is written, or the workload waits.
  unfoldable pub saved_or_put_off : Pod → Managed → Flow Managed
  unfolding persisted put_off
  saved_or_put_off p m = persisted host settings >>= λ saved.
      if saved then pure m else (put_off host settings p m not_persisted >> fail skip_pod)

  -- The journal has the workload before anything is done for it.
  unfoldable pub take_up : Pod → Flow Managed
  unfolding workload_for keep saved_or_put_off
  take_up p = do
    (m, changed) ← gets (λ w. workload_for settings.lower_table p w.manager.workloads)
    keep m
    if not changed then pure m else saved_or_put_off p m

  unfoldable pub after_allocation : Pod → Managed → Result NetError Text → Flow Text
  unfolding refuse use_address
  after_allocation p m (err e) =
      refuse host settings p [] not_allocated (codes "MacletAddressAllocationFailed")
        m.restart_count
      >> fail skip_pod
  after_allocation p m (ok ip) = use_address ip >> pure ip

  -- The address of a workload: the Node's, the one that the Pod has, or a free one
  unfoldable pub address_for : Handle → Pod → Managed → Flow Text
  unfolding after_allocation handle_first_available
  address_for h p m =
      if p.host_network
      then pure settings.node_ip
      else if not (p.status.pod_ip == [])
      then pure p.status.pod_ip
      else gets (λ w. handle_first_available h (contains w.used)) >>= after_allocation p m

  -- An address that the workload had before and gives back
  unfoldable pub give_up_old : Pod → Managed → Text → Flow (Unit {0})
  unfolding ask note
  give_up_old p m ip =
      if not (m.ip == []) && not (m.ip == ip) && not m.host_network
      then (ask host settings (release_ip m.ip) >>= λ outcome.
          if is_done outcome then pure tt else (note (uid_of p) ip_not_removed >> fail skip_pod))
      else pure tt

  unfoldable pub record_address : Pod → Managed → Text → Flow Managed
  unfolding keep saved_or_put_off
  record_address p m ip =
      if m.ip == ip
      then pure m
      else (keep (record m { ip = ip }) >> saved_or_put_off p (record m { ip = ip }))

  unfoldable pub add_address : Pod → Managed → Text → Flow (Unit {0})
  unfolding ask refuse
  add_address p m ip =
      if p.host_network
      then pure tt
      else ask host settings (add_ip ip) >>= λ outcome.
          if is_done outcome
          then pure tt
          else refuse host settings p ip ip_not_added (codes "MacletNetworkSetupFailed")
              m.restart_count

  unfoldable pub after_check : Pod → Managed → Text → Result NetError (Unit {0}) → Flow (Unit {0})
  unfolding refuse
  after_check p m ip (ok u) = pure tt
  after_check p m ip (err e) =
      refuse host settings p ip invalid_ip (codes "MacletInvalidPodIP") m.restart_count

  unfoldable pub check_ip : Handle → Pod → Managed → Text → Flow (Unit {0})
  unfolding after_check handle_validate_address
  check_ip h p m ip =
      if p.host_network then pure tt else after_check p m ip (handle_validate_address h ip)

  -- A supported Pod: its workload, its address, and its container
  unfoldable pub run_pod : Handle → Pod → Flow (Unit {0})
  unfolding take_up address_for check_ip give_up_old record_address add_address is_over waits
      run_container
  run_pod h p = do
    m ← take_up p
    ip ← address_for h p m
    check_ip h p m ip
    give_up_old p m ip
    m' ← record_address p m ip
    add_address p m' ip
    if is_over p then fail skip_pod else pure tt
    now ← gets (λ w. host.now w.calls)
    if waits m'.retry_after now then fail skip_pod else run_container host settings p m' ip

  -- A Pod of several containers waits, and only a failed report counts as an error.
  unfoldable pub refuse_sidecars : Pod → Flow (Unit {0})
  unfolding explained report_or_note
  refuse_sidecars p = explained host settings several_containers >>= λ message.
      report_or_note host settings p record {
        phase = codes "Pending";
        ip = p.status.pod_ip;
        reason = codes "MacletUnsupportedPod";
        message = message;
        running = false;
        restart_count = pos 0;
        termination = none;
      }

  unfoldable pub on_network : Pod → Option Handle → Flow (Unit {0})
  unfolding refuse run_pod refuse_sidecars
  on_network p none =
      refuse host settings p p.status.pod_ip no_network (codes "MacletNetworkSetupFailed") (pos 0)
  on_network p (some h) = if eqb (length p.containers) 1 then run_pod h p else refuse_sidecars p

  -- A native Pod that is not being deleted
  unfoldable pub assigned_pod : Pod → Flow (Unit {0})
  unfolding see has_valid_network refuse on_network
  assigned_pod p = do
    see (uid_of p)
    if has_valid_network p
        then pure tt
        else refuse host settings p p.status.pod_ip unsupported_network
            (codes "MacletUnsupportedPod") (pos 0)
    on_network p settings.network
