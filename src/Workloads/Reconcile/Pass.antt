-- ===== src/Workloads/Reconcile/Pass.antt =====
-- One pass of reconcile over the Pods of the Node (pkg/maclet/workload_reconcile.go), with the check of
-- pkg/maclet/workload_network.go on the network of a Pod.
use maclet.Prelude.{
  ℕ, Bool, true, false, ◌||◌, Option, none, some, List, [], ◌∷◌, ltb, ◌==◌, text_eq_instance,
  contains, if◌then◌else◌, ok,
}
use maclet.Prelude.Exec.{pure, fail, gets}
use maclet.Prelude.Exec.Bind.{◌>>=◌, ◌>>◌}
use maclet.Prelude.Text.{Text}
use maclet.Workloads.Pods.{Pod}
use maclet.Workloads.Managed.{Managed, prune_retained_logs}
use maclet.Workloads.Reconcile.{
  not_pruned, not_removed, not_persisted, Host, Settings, World, skip_pod, Flow, note, keep, retain,
  remove, persisted,
}
use maclet.Workloads.Reconcile.Deletion.{delete_pod}
use maclet.Workloads.Reconcile.Assigned.{assigned_pod}

module _ (host : Host) (settings : Settings) where
  unfoldable pub by_deletion : Pod → Option ℕ → Flow (Unit {0})
  unfolding delete_pod assigned_pod
  by_deletion p (some t) = delete_pod host settings p
  by_deletion p none = if p.native then assigned_pod host settings p else pure tt

  unfoldable pub handle_pod : Pod → Flow (Unit {0})
  unfolding by_deletion
  handle_pod p = by_deletion p p.deleted_at

  unfoldable pub handle_pods : List Pod → World → World
  unfolding handle_pod
  handle_pods [] w = w
  handle_pods (p ∷ ps) w = handle_pods ps (handle_pod p w).1

  -- The value tells whether the journal changed.
  unfoldable pub settle_unseen : Managed → ℕ × Managed → Flow Bool
  unfolding note keep retain
  settle_unseen m (errors, m') =
      if ltb 0 errors
      then (note m.uid not_removed >> keep m' >> pure false)
      else (retain host settings m' >> pure true)

  -- A workload whose Pod was not seen
  unfoldable pub drop_unseen : Managed → Flow Bool
  unfolding remove settle_unseen
  drop_unseen m = remove host settings m >>= settle_unseen m

  unfoldable pub drop_one : Managed → Flow Bool
  unfolding drop_unseen
  drop_one m =
      gets (λ w. contains w.seen m.uid) >>= λ known. if known then pure false else drop_unseen m

  unfoldable pub drop_stale : List Managed → Flow Bool
  unfolding drop_one
  drop_stale [] = pure false
  drop_stale (m ∷ ms) = drop_one m >>= λ changed. drop_stale ms >>= λ rest. pure (changed || rest)

  unfoldable pub save_stale : Bool → Flow (Unit {0})
  unfolding persisted note
  save_stale changed =
      if changed
      then (persisted host settings >>= λ saved. if saved then pure tt else note [] not_persisted)
      else pure tt

  unfoldable pub addresses_of : List Pod → List Text
  addresses_of [] = []
  addresses_of (p ∷ ps) =
      let rest = addresses_of ps in if p.status.pod_ip == [] then rest else p.status.pod_ip ∷ rest

  unfoldable pub run_pods : List Pod → Flow (Unit {0})
  unfolding handle_pods addresses_of
  run_pods pods w = (ok tt, handle_pods pods (record w { used = addresses_of pods; seen = [] }))

  -- The pass behind the pruning of expired logs
  unfoldable pub pass_over : List Pod → Flow (Unit {0})
  unfolding run_pods drop_stale save_stale
  pass_over pods = do
    run_pods pods
    workloads ← gets (λ w. w.manager.workloads)
    changed ← drop_stale workloads
    save_stale changed

  unfoldable pub prune : Flow Bool
  unfolding prune_retained_logs
  prune w =
      let (changed, manager) = prune_retained_logs (host.now w.calls) w.manager in
      (ok changed, record w { manager = manager; errors = [] })

  unfoldable pub save_pruned : Bool → Flow (Unit {0})
  unfolding persisted note
  save_pruned changed =
      if changed
      then (persisted host settings >>= λ saved.
          if saved then pure tt else (note [] not_pruned >> fail skip_pod))
      else pure tt

  unfoldable pub reconcile : List Pod → Flow (Unit {0})
  unfolding prune save_pruned pass_over
  reconcile pods = prune >>= λ changed. save_pruned changed >> pass_over pods
