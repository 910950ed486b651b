-- ===== src/Workloads/Reconcile/Convergence/Tests.antt =====
-- A concrete pass of pkg/maclet/workload_reconcile.go without errors.
use maclet.Workloads.Managed.{find}
use maclet.Prelude.Exec.Bind.{◌>>=◌}
use maclet.Prelude.{◌≡◌, refl, true, false, [], ◌∷◌}
use maclet.Prelude.Text.{codes}
use maclet.Workloads.Reconcile.Pass.{reconcile}
use maclet.Workloads.Reconcile.Fixtures.{calm, settings, node_before, pod_named}
use maclet.Workloads.Reconcile.Convergence.{reconcile-assigned}
use maclet.Workloads.Reconcile.Settled.{is_assigned, is_running}

no_errors : (reconcile calm settings (pod_named (codes "u1") true ∷ []) node_before).1.errors ≡ []
unfolding reconcile ◌>>=◌
no_errors = refl

new_runs :
    is_running
      (codes "u1")
      (reconcile calm settings (pod_named (codes "u1") true ∷ []) node_before).1
    ≡ true
unfolding find reconcile ◌>>=◌
new_runs = refl

old_is_gone :
    is_running
      (codes "u0")
      (reconcile calm settings (pod_named (codes "u1") true ∷ []) node_before).1
    ≡ false
unfolding find reconcile ◌>>=◌
old_is_gone = refl

reconcile-assigned_example : is_assigned (pod_named (codes "u1") true ∷ []) (codes "u1") ≡ true
reconcile-assigned_example =
    reconcile-assigned calm settings (pod_named (codes "u1") true ∷ []) node_before (codes "u1")
      no_errors new_runs
