-- ===== src/Workloads/Reconcile/Safety/Tests.antt =====
-- Concrete passes of pkg/maclet/workload_reconcile.go: their calls, and what stays known.
use maclet.Workloads.Managed.{prune_retained_logs, find}
use maclet.Prelude.{◌≡◌, refl, true, false, some, [], ◌∷◌}
use maclet.Prelude.Text.{codes}
use maclet.Workloads.Removal.Traces.{is_tracked}
use maclet.Workloads.Reconcile.Pass.{reconcile}
use maclet.Workloads.Reconcile.Fixtures.{bridge, calm, settings, node_before, pod_named}
use maclet.Workloads.Reconcile.Safety.{IsProper, reconcile-IsProper, reconcile-IsKnown}

reconcile-IsProper_example :
    IsProper
      (some bridge)
      (reconcile calm settings (pod_named (codes "u1") false ∷ []) node_before).1
reconcile-IsProper_example =
    reconcile-IsProper calm settings (pod_named (codes "u1") false ∷ []) node_before tt

old_is_known : is_tracked (codes "u0") node_before.manager ≡ true
unfolding find
old_is_known = refl

reconcile-IsKnown_example :
    is_tracked
      (codes "u0")
      (reconcile calm settings (pod_named (codes "u1") false ∷ []) node_before).1.manager
    ≡ true
unfolding prune_retained_logs
reconcile-IsKnown_example =
    reconcile-IsKnown calm settings (pod_named (codes "u1") false ∷ []) node_before (codes "u0")
      old_is_known
