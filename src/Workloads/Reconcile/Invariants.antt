-- ===== src/Workloads/Reconcile/Invariants.antt =====
-- A whole pass (pkg/maclet/workload_reconcile.go) consists of its actions: an invariant that the actions
-- keep is kept by each Pod, by the removal of what is stale, and by the pass.
use maclet.Prelude.{
  ℕ, ◌≡◌, refl, sym, subst, Bool, true, false, not, ◌&&◌, Option, none, some, List, [], ◌∷◌, ltb,
  arith, eqb, ◌==◌, text_eq_instance, text_eq_iff, length, Result, ok, err,
}
use maclet.Prelude.Exec.{fail}
use maclet.Prelude.Exec.Keeps.{
  Anything, Ensures, Ensures-pure, Ensures-fail, Ensures-read, Ensures-if, Ensures-bind,
  Ensures-next, Ensures-weaken,
}
use maclet.Prelude.Text.{Text, codes}
use maclet.Go.Numbers.{pos}
use maclet.Network.Addresses.{NetError}
use maclet.Network.Handle.{Handle, handle_validate_address}
use maclet.Workloads.Pods.{Pod}
use maclet.Workloads.Managed.{Managed, find}
use maclet.Workloads.Removal.{add_ip, release_ip, Outcome, done, ignorable, failed}
use maclet.Workloads.Reconcile.{
  Host, Settings, World, skip_pod, uid_of, is_done, see, use_address, not_removed, not_persisted,
  not_reported, unsupported_network, no_network, not_allocated, invalid_ip, ip_not_removed,
  ip_not_added, several_containers, workload_of_deleted,
}
use maclet.Workloads.Reconcile.Pass.{by_deletion, handle_pod, save_stale}
use maclet.Workloads.Reconcile.Assigned.{
  saved_or_put_off, take_up, after_allocation, address_for, give_up_old, record_address,
  add_address, after_check, check_ip, run_pod, refuse_sidecars, on_network, assigned_pod,
}
use maclet.Workloads.Reconcile.Deletion.{
  after_report, acknowledge, remove_deleted, conclude, delete_pod,
}
use maclet.Workloads.Reconcile.Records.{
  has_valid_network, or_workload, new_workload, recorded_as, workload_for, is_over, waits,
}
use maclet.Workloads.Reconcile.Actions.{
  IsValidFor, IsQuiet, IsClosed, is_deleted, Ensures-note, Ensures-keep, Ensures-ask,
  Ensures-explained, Ensures-refuse, Ensures-report_or_note, Ensures-persisted,
}
use maclet.Workloads.Reconcile.Kept.{Ensures-put_off, Ensures-run_container}
use maclet.Workloads.Reconcile.Started.{Ensures-remove, Ensures-retain}

or_workload-uid :
    (uid : Text) (ws : List Managed) (d : Managed)
    → d.uid ≡ uid
    → (or_workload (find uid ws) d).uid ≡ uid
unfolding find
or_workload-uid uid [] d e = e
or_workload-uid uid (w ∷ ws) d e = ground (arith, or_workload-uid uid ws d e, text_eq_iff w.uid uid)

module _ (host : Host) (settings : Settings) {P : World → Type 0}
    (quiet : IsQuiet settings.network P) where
  pub Ensures-save_stale : (changed : Bool) → Ensures P Anything (save_stale host settings changed)
  unfolding save_stale
  Ensures-save_stale changed =
      Ensures-if {b = changed}
        (λ x. Ensures-bind (Ensures-persisted host settings quiet) (λ saved u.
          Ensures-if {b = saved} (λ y. Ensures-pure tt tt)
            (λ y. Ensures-note host settings quiet [] not_persisted)))
        (λ x. Ensures-pure tt tt)

module _ (host : Host) (settings : Settings) {P : World → Type 0}
    (quiet : IsQuiet settings.network P) (p : Pod) where
  Ensures-after_report : (o : Outcome) → Ensures P Anything (after_report host settings p o)
  unfolding after_report
  Ensures-after_report done = Ensures-pure tt tt
  Ensures-after_report ignorable = Ensures-pure tt tt
  Ensures-after_report failed = Ensures-note host settings quiet (uid_of p) not_reported

  pub Ensures-acknowledge :
      (m : Managed) → is_deleted p ≡ true → Ensures P Anything (acknowledge host settings p m)
  unfolding acknowledge
  Ensures-acknowledge m d = Ensures-bind (Ensures-persisted host settings quiet) (λ saved u.
      Ensures-next
        (Ensures-if (λ x. Ensures-pure tt tt)
          (λ x. Ensures-note host settings quiet (uid_of p) not_persisted))
        (Ensures-bind (Ensures-ask host settings quiet _ (ground (arith, d)))
          (λ o v. Ensures-after_report o)))

module _ (host : Host) (settings : Settings) {P : World → Type 0} (p : Pod)
    (closed : IsClosed settings.network (uid_of p) P) where
  abbrev IsOurs : Managed → Type 0
  IsOurs m = m.uid ≡ uid_of p

  Ensures-see : Ensures P Anything (see (uid_of p))
  unfolding see
  Ensures-see = record { at = λ w q. (closed.on_see w q, tt) }

  pub Ensures-remove_deleted : Ensures P (λ r. IsOurs r.1) (remove_deleted host settings p)
  unfolding remove_deleted workload_of_deleted
  Ensures-remove_deleted = Ensures-next Ensures-see (
      Ensures-bind {Q = IsOurs}
        (Ensures-read _ (λ w q. or_workload-uid (uid_of p) w.manager.workloads _ refl))
        (λ m e. Ensures-remove host settings closed m e))

  Ensures-conclude :
      (r : ℕ × Managed)
      → IsOurs r.1
      → is_deleted p ≡ true
      → Ensures P Anything (conclude host settings p r)
  unfolding conclude
  Ensures-conclude r e d =
      Ensures-if {b = ltb 0 r.0}
        (λ x.
          Ensures-next (Ensures-note host settings closed.quiet (uid_of p) not_removed)
            (Ensures-keep host settings closed r.1 e))
        (λ x.
          Ensures-next (Ensures-retain host settings closed r.1 e)
            (Ensures-acknowledge host settings closed.quiet p r.1 d))

  Ensures-delete_pod : is_deleted p ≡ true → Ensures P Anything (delete_pod host settings p)
  unfolding delete_pod
  Ensures-delete_pod d = Ensures-bind Ensures-remove_deleted (λ r e. Ensures-conclude r e d)

  module _ (n : p.native ≡ true) where
    Ensures-saved : (m : Managed) → IsOurs m → Ensures P IsOurs (saved_or_put_off host settings p m)
    unfolding saved_or_put_off
    Ensures-saved m e = Ensures-bind (Ensures-persisted host settings closed.quiet) (λ saved u.
        Ensures-if (λ x. Ensures-pure m e)
          (λ x.
            Ensures-next (Ensures-put_off host settings closed p n m not_persisted e)
              (Ensures-fail skip_pod)))

    Ensures-take_up : Ensures P IsOurs (take_up host settings p)
    unfolding take_up workload_for recorded_as new_workload
    Ensures-take_up =
        Ensures-bind {Q = λ r. IsOurs r.0}
          (Ensures-read _ (λ w q. or_workload-uid (uid_of p) w.manager.workloads _ refl))
          (λ r e.
            Ensures-next (Ensures-keep host settings closed r.0 e)
              (Ensures-if (λ x. Ensures-pure r.0 e) (λ x. Ensures-saved r.0 e)))

    Ensures-after_allocation :
        (m : Managed) (r : Result NetError Text)
        → Ensures P Anything (after_allocation host settings p m r)
    unfolding after_allocation use_address
    Ensures-after_allocation m (err x) =
        Ensures-next {Q = Anything}
          (Ensures-refuse host settings closed.quiet p [] not_allocated
            (codes "MacletAddressAllocationFailed") m.restart_count n)
          (Ensures-fail skip_pod)
    Ensures-after_allocation m (ok ip) =
        Ensures-next {Q = Anything} (record { at = λ w q. (closed.on_use w ip q, tt) })
          (Ensures-pure ip tt)

    Ensures-address_for :
        (h : Handle) (m : Managed) → Ensures P Anything (address_for host settings h p m)
    unfolding address_for
    Ensures-address_for h m =
        Ensures-if {b = p.host_network} (λ x. Ensures-pure settings.node_ip tt)
          (λ x.
            Ensures-if {b = not (p.status.pod_ip == [])} (λ y. Ensures-pure p.status.pod_ip tt)
              (λ y.
                Ensures-bind {Q = Anything} (Ensures-read _ (λ w q. tt))
                  (λ found u. Ensures-after_allocation m found)))

    Ensures-give_up_old :
        (m : Managed) (ip : Text) → Ensures P Anything (give_up_old host settings p m ip)
    unfolding give_up_old
    Ensures-give_up_old m ip =
        Ensures-if {b = not (m.ip == []) && not (m.ip == ip) && not m.host_network}
          (λ x. Ensures-bind (Ensures-ask host settings closed.quiet (release_ip m.ip) tt) (λ o u.
            Ensures-if {b = is_done o} (λ y. Ensures-pure tt tt)
              (λ y.
                Ensures-next (Ensures-note host settings closed.quiet (uid_of p) ip_not_removed)
                  (Ensures-fail skip_pod))))
          (λ x. Ensures-pure tt tt)

    Ensures-record_address :
        (m : Managed) (ip : Text)
        → IsOurs m
        → Ensures P IsOurs (record_address host settings p m ip)
    unfolding record_address
    Ensures-record_address m ip e =
        let m' : Managed = record m { ip = ip } in
        Ensures-if {b = m.ip == ip} (λ x. Ensures-pure m e)
          (λ x. Ensures-next (Ensures-keep host settings closed m' e) (Ensures-saved m' e))

    module _ (h : Handle) (on : settings.network ≡ some h) where
      -- The check lets an address through only if the network takes it.
      abbrev IsChecked : Text → Type 0
      IsChecked ip = p.host_network ≡ false → handle_validate_address h ip ≡ ok tt

      Ensures-after_check :
          (m : Managed) (ip : Text) (r : Result NetError (Unit {0}))
          → Ensures P (λ u. r ≡ ok tt) (after_check host settings p m ip r)
      unfolding after_check
      Ensures-after_check m ip (ok tt) = Ensures-pure tt refl
      Ensures-after_check m ip (err x) =
          Ensures-refuse host settings closed.quiet p ip invalid_ip (codes "MacletInvalidPodIP")
            m.restart_count n

      Ensures-check_ip :
          (m : Managed) (ip : Text)
          → Ensures P (λ u. IsChecked ip) (check_ip host settings h p m ip)
      unfolding check_ip
      Ensures-check_ip m ip =
          Ensures-if {b = p.host_network} (λ x. Ensures-pure tt (λ y. cc))
            (λ x.
              Ensures-weaken (λ u e y. e) (Ensures-after_check m ip (handle_validate_address h ip)))

      Ensures-add_address :
          (m : Managed) (ip : Text)
          → IsChecked ip
          → Ensures P Anything (add_address host settings p m ip)
      unfolding add_address
      Ensures-add_address m ip c =
          Ensures-if {b = p.host_network} (λ x. Ensures-pure tt tt)
            (λ x.
              Ensures-bind
                (Ensures-ask host settings closed.quiet (add_ip ip)
                  (subst (λ o. IsValidFor o ip) (sym on) (c x)))
                (λ o u.
                  Ensures-if {b = is_done o} (λ y. Ensures-pure tt tt)
                    (λ y.
                      Ensures-refuse host settings closed.quiet p ip ip_not_added
                        (codes "MacletNetworkSetupFailed") m.restart_count n)))

      Ensures-run_pod : Ensures P Anything (run_pod host settings h p)
      unfolding run_pod
      Ensures-run_pod = Ensures-bind Ensures-take_up (λ m e.
          Ensures-bind (Ensures-address_for h m) (λ ip u.
            Ensures-bind (Ensures-check_ip m ip) (λ v c. Ensures-next (Ensures-give_up_old m ip) (
              Ensures-bind (Ensures-record_address m ip e) (λ m' e'.
                Ensures-next (Ensures-add_address m' ip c) (
                  Ensures-next {Q = Anything}
                    (Ensures-if {b = is_over p} {m = fail skip_pod} (λ x. Ensures-fail skip_pod)
                      (λ x. Ensures-pure tt tt))
                    (Ensures-bind {Q = Anything} (Ensures-read _ (λ w q. tt)) (λ now x.
                      Ensures-if {b = waits m'.retry_after now} (λ y. Ensures-fail skip_pod)
                        (λ y. Ensures-run_container host settings closed p n m' ip e')))))))))

    Ensures-refuse_sidecars : Ensures P Anything (refuse_sidecars host settings p)
    unfolding refuse_sidecars
    Ensures-refuse_sidecars =
        Ensures-bind (Ensures-explained host settings closed.quiet several_containers)
          (λ message u. Ensures-report_or_note host settings closed.quiet p _ (ground (arith, n)))

    Ensures-on_network :
        (o : Option Handle)
        → settings.network ≡ o
        → Ensures P Anything (on_network host settings p o)
    unfolding on_network
    Ensures-on_network none e =
        Ensures-refuse host settings closed.quiet p p.status.pod_ip no_network
          (codes "MacletNetworkSetupFailed") (pos 0) n
    Ensures-on_network (some h) e =
        Ensures-if {b = eqb (length p.containers) 1} (λ x. Ensures-run_pod h e)
          (λ x. Ensures-refuse_sidecars)

    pub Ensures-assigned_pod : Ensures P Anything (assigned_pod host settings p)
    unfolding assigned_pod
    Ensures-assigned_pod = Ensures-next Ensures-see (
        Ensures-next {Q = Anything}
          (Ensures-if {b = has_valid_network p} (λ x. Ensures-pure tt tt)
            (λ x.
              Ensures-refuse host settings closed.quiet p p.status.pod_ip unsupported_network
                (codes "MacletUnsupportedPod") (pos 0) n))
          (Ensures-on_network settings.network refl))

  Ensures-by_deletion :
      (o : Option ℕ) → p.deleted_at ≡ o → Ensures P Anything (by_deletion host settings p o)
  unfolding by_deletion
  Ensures-by_deletion (some t) e = Ensures-delete_pod (ground (arith, e))
  Ensures-by_deletion none e =
      Ensures-if {b = p.native} Ensures-assigned_pod (λ x. Ensures-pure tt tt)

  pub Ensures-handle_pod : Ensures P Anything (handle_pod host settings p)
  unfolding handle_pod
  Ensures-handle_pod = Ensures-by_deletion p.deleted_at refl
