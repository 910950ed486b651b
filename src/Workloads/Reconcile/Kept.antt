-- ===== src/Workloads/Reconcile/Kept.antt =====
-- The stages for one container (pkg/maclet/workload_reconcile.go) consist of the actions of a pass: an
-- invariant that the actions keep is kept by each of them.
use maclet.Prelude.{
  ◌≡◌, true, Option, none, some, List, arith, ◌==◌, text_eq_instance, Result, ok, err, Bool-cases,
  inl, inr,
}
use maclet.Prelude.Exec.Keeps.{
  Anything, Ensures, Ensures-pure, Ensures-fail, Ensures-read, Ensures-if, Ensures-bind,
  Ensures-next,
}
use maclet.Prelude.Text.{Text, codes}
use maclet.Go.Numbers.{ℤ}
use maclet.Workloads.Pods.{Pod, Inspection}
use maclet.Workloads.Status.{first_image}
use maclet.Workloads.Managed.{Managed}
use maclet.Workloads.Removal.{
  read_status, read_inspection, refresh_volumes, prepare, wait_running, is_empty,
}
use maclet.Workloads.Reconcile.{
  Fault, Host, Settings, World, uid_of, skip_pod, not_persisted, not_inspected, not_stopped,
  no_macker, not_prepared, not_started, not_running,
}
use maclet.Workloads.Reconcile.Launch.{
  refuse_launch, put_off, finish, clear_for_restart, after_inspection, exited, still_running,
  save_mounts, after_arguments, prepare_run, give_up, establish, launch, after_status,
  run_container,
}
use maclet.Workloads.Reconcile.Endings.{
  next_count, stays_ended, on_failure, ending_of, running_report, ended_report,
}
use maclet.Workloads.Reconcile.Actions.{
  IsClosed, fits, Ensures-note, Ensures-keep, Ensures-ask, Ensures-retry_later, Ensures-refuse,
  Ensures-report_or_note, Ensures-persisted,
}
use maclet.Workloads.Reconcile.Started.{
  IsOf, Ensures-archive, Ensures-remove, Ensures-stop, Ensures-retain, Ensures-with_fresh,
  Ensures-start,
}

module _ (host : Host) (settings : Settings) {uid : Text} {P : World → Type 0}
    (closed : IsClosed settings.network uid P) where
  module _ (p : Pod) (n : p.native ≡ true) where
    pub Ensures-put_off :
        (m : Managed) (f : Fault)
        → IsOf host settings closed m
        → Ensures P Anything (put_off host settings p m f)
    unfolding put_off
    Ensures-put_off m f e =
        Ensures-next (Ensures-note host settings closed.quiet (uid_of p) f)
          (Ensures-next (Ensures-retry_later host settings closed m e) (Ensures-fail skip_pod))

    pub Ensures-refuse_launch :
        (m : Managed) (ip : Text) (f : Fault) (reason : Text)
        → IsOf host settings closed m
        → Ensures P Anything (refuse_launch host settings p m ip f reason)
    unfolding refuse_launch
    Ensures-refuse_launch m ip f reason e =
        Ensures-next (Ensures-retry_later host settings closed m e)
          (Ensures-refuse host settings closed.quiet p ip f reason m.restart_count n)

    Ensures-running :
        (ip message : Text) (count : ℤ) → fits p (running_report ip message count) ≡ true
    Ensures-running ip message count = ground (arith, n)

    Ensures-finish :
        (m : Managed) (ip : Text) (i : Option Inspection)
        → IsOf host settings closed m
        → stays_ended p ≡ true
        → Ensures P Anything (finish host settings p m ip i)
    unfolding finish
    Ensures-finish m ip i e over = Ensures-bind (Ensures-archive host settings closed m e) (λ m' e'.
        Ensures-next (Ensures-stop host settings closed m') (
          Ensures-next (Ensures-retain host settings closed m' e') (
            Ensures-bind (Ensures-persisted host settings closed.quiet) (λ saved u.
              Ensures-next
                (Ensures-if (λ x. Ensures-pure tt tt)
                  (λ x. Ensures-note host settings closed.quiet (uid_of p) not_persisted))
                (Ensures-next
                  (Ensures-report_or_note host settings closed.quiet p _ (ended m' over))
                  (Ensures-fail skip_pod))))))
      where
        ended :
            (m' : Managed)
            → stays_ended p ≡ true
            → fits p (ended_report ip m'.restart_count i (ending_of (on_failure p) i)) ≡ true
        ended m' o = ground (arith, n)

    Ensures-clear :
        (m : Managed)
        → IsOf host settings closed m
        → Ensures P (IsOf host settings closed) (clear_for_restart host settings p m)
    unfolding clear_for_restart
    Ensures-clear m e = Ensures-bind (Ensures-archive host settings closed m e) (λ m' e'.
        Ensures-next (Ensures-keep host settings closed m' e') (
          Ensures-bind (Ensures-stop host settings closed m') (λ errors u.
            Ensures-next
              (Ensures-if (λ x. Ensures-put_off m' not_stopped e') (λ x. Ensures-pure tt tt))
              (Ensures-next (Ensures-keep host settings closed _ e') (
                Ensures-bind (Ensures-persisted host settings closed.quiet) (λ saved v.
                  Ensures-next
                    (Ensures-if (λ x. Ensures-pure tt tt)
                      (λ x.
                        Ensures-put_off (record m' { restart_count = next_count m'.restart_count })
                          not_persisted e'))
                    (Ensures-pure _ e')))))))

    Ensures-after_inspection :
        (m : Managed) (ip : Text) (r : Result (Unit {0}) (Option Inspection))
        → IsOf host settings closed m
        → Ensures P (IsOf host settings closed) (after_inspection host settings p m ip r)
    unfolding after_inspection
    Ensures-after_inspection m ip (err x) e =
        Ensures-next (Ensures-put_off m not_inspected e) (Ensures-fail skip_pod)
    Ensures-after_inspection m ip (ok i) e = elim (Bool-cases (stays_ended p)) [
      | inl over ↦ rw over (Ensures-next (Ensures-finish m ip i e over) (Ensures-fail skip_pod))
      | inr on ↦ rw on (Ensures-clear m e)
    ]

    Ensures-exited :
        (m : Managed) (ip : Text)
        → IsOf host settings closed m
        → Ensures P (IsOf host settings closed) (exited host settings p m ip)
    unfolding exited
    Ensures-exited m ip e =
        Ensures-next (Ensures-ask host settings closed.quiet (read_inspection m.container_name) tt)
          (Ensures-bind {Q = Anything} (Ensures-read _ (λ w q. tt))
            (λ shown u. Ensures-after_inspection m ip shown e))

    Ensures-still_running :
        (m : Managed) (ip : Text)
        → IsOf host settings closed m
        → Ensures P Anything (still_running host settings p m ip)
    unfolding still_running
    Ensures-still_running m ip e =
        Ensures-next (Ensures-ask host settings closed.quiet (refresh_volumes m.uid) tt) (
          Ensures-bind {Q = Anything} (Ensures-read _ (λ w q. tt)) (λ fresh u.
            Ensures-bind (Ensures-with_fresh host settings closed m fresh e) (λ m' e'.
              Ensures-next (Ensures-keep host settings closed _ e') (
                Ensures-report_or_note host settings closed.quiet p _ (
                  Ensures-running ip (codes "Macker is running the trusted native workload")
                    m'.restart_count)))))

    Ensures-save_mounts :
        (m : Managed) (ip : Text)
        → IsOf host settings closed m
        → Ensures P Anything (save_mounts host settings p m ip)
    unfolding save_mounts
    Ensures-save_mounts m ip e = elim (Bool-cases (is_empty m.nfs_mounts)) [
      | inl none_left ↦ rw none_left (Ensures-pure tt tt)
      | inr some_left ↦ rw some_left (
          Ensures-bind (Ensures-persisted host settings closed.quiet) (λ saved u.
            Ensures-if (λ x. Ensures-pure tt tt)
              (λ x.
                Ensures-refuse_launch m ip not_persisted (codes "MacletOwnershipPersistFailed") e)))
    ]

    Ensures-after_arguments :
        (m : Managed) (ip : Text) (args : Option (List Text))
        → IsOf host settings closed m
        → Ensures P (λ r. IsOf host settings closed r.1) (after_arguments host settings p m ip args)
    unfolding after_arguments
    Ensures-after_arguments m ip none e =
        Ensures-next (Ensures-refuse_launch m ip not_prepared (codes "MacletMackerLaunchFailed") e)
          (Ensures-fail skip_pod)
    Ensures-after_arguments m ip (some args) e = Ensures-pure (args, m) e

    Ensures-prepare :
        (m : Managed) (ip : Text)
        → IsOf host settings closed m
        → Ensures P (λ r. IsOf host settings closed r.1) (prepare_run host settings p m ip)
    unfolding prepare_run
    Ensures-prepare m ip e =
        Ensures-next (Ensures-ask host settings closed.quiet (prepare m.uid) tt) (
          Ensures-bind {Q = Anything} (Ensures-read _ (λ w q. tt)) (λ made u.
            Ensures-next (Ensures-keep host settings closed _ e)
              (Ensures-after_arguments _ ip made.args e)))

    Ensures-give_up :
        (m : Managed) (ip : Text)
        → IsOf host settings closed m
        → Ensures P Anything (give_up host settings p m ip)
    unfolding give_up
    Ensures-give_up m ip e =
        Ensures-bind {Q = λ r. IsOf host settings closed r.1}
          (Ensures-remove host settings closed m e)
          (λ r e'.
            Ensures-refuse_launch r.1 ip not_persisted (codes "MacletOwnershipPersistFailed") e')

    Ensures-establish :
        (m : Managed) (ip : Text)
        → IsOf host settings closed m
        → Ensures P Anything (establish host settings p m ip)
    unfolding establish
    Ensures-establish m ip e =
        Ensures-bind (Ensures-persisted host settings closed.quiet) (λ saved u.
          Ensures-next (Ensures-if (λ x. Ensures-pure tt tt) (λ x. Ensures-give_up m ip e)) (
            Ensures-next (Ensures-keep host settings closed (record m { retry_after = none }) e) (
              Ensures-report_or_note host settings closed.quiet p _ (
                Ensures-running ip (codes "Macker started the trusted native workload")
                  m.restart_count))))

    Ensures-launch :
        (m : Managed) (ip : Text)
        → IsOf host settings closed m
        → Ensures P Anything (launch host settings p m ip)
    unfolding launch
    Ensures-launch m ip e =
        Ensures-bind {Q = λ r. IsOf host settings closed r.1} (Ensures-prepare m ip e) (λ r e'.
          Ensures-next (Ensures-save_mounts r.1 ip e') (
            Ensures-bind (Ensures-start host settings closed r.0 (first_image p.containers))
              (λ started u.
                Ensures-next
                  (Ensures-if (λ x. Ensures-pure tt tt)
                    (λ x.
                      Ensures-refuse_launch r.1 ip not_started (codes "MacletMackerLaunchFailed")
                        e'))
                  (Ensures-bind
                    (Ensures-ask host settings closed.quiet (wait_running r.1.container_name) tt)
                    (λ up v.
                      Ensures-next
                        (Ensures-if (λ x. Ensures-pure tt tt)
                          (λ x. Ensures-next (Ensures-stop host settings closed r.1) (
                            Ensures-refuse_launch r.1 ip not_running
                              (codes "MacletMackerLaunchFailed") e')))
                        (Ensures-establish r.1 ip e'))))))

    Ensures-after_status :
        (m : Managed) (ip : Text) (r : Result (Unit {0}) (Option Text))
        → IsOf host settings closed m
        → Ensures P Anything (after_status host settings p m ip r)
    unfolding after_status
    Ensures-after_status m ip (err x) e =
        Ensures-refuse_launch m ip no_macker (codes "MacletMackerUnavailable") e
    Ensures-after_status m ip (ok none) e = Ensures-launch m ip e
    Ensures-after_status m ip (ok (some status)) e = elim (Bool-cases (status == codes "running")) [
      | inl up ↦ rw up (Ensures-still_running m ip e)
      | inr down ↦ rw down (Ensures-bind (Ensures-exited m ip e) (λ m' e'. Ensures-launch m' ip e'))
    ]

    pub Ensures-run_container :
        (m : Managed) (ip : Text)
        → IsOf host settings closed m
        → Ensures P Anything (run_container host settings p m ip)
    unfolding run_container
    Ensures-run_container m ip e =
        Ensures-next (Ensures-ask host settings closed.quiet (read_status m.container_name) tt) (
          Ensures-bind {Q = Anything} (Ensures-read _ (λ w q. tt))
            (λ shown u. Ensures-after_status m ip shown e))
