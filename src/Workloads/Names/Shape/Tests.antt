-- ===== src/Workloads/Names/Shape/Tests.antt =====
-- A concrete name of pkg/maclet/workload_mounts.go.
use maclet.Prelude.{◌≡◌, refl, false}
use maclet.Prelude.Text.{codes}
use maclet.Workloads.Names.{workload_container_name}
use maclet.Workloads.Reconcile.Fixtures.{pod_named}

named :
    workload_container_name (λ c. c) (pod_named (codes "U 1.") false)
    ≡ codes "maclet-default-web-u-1"
unfolding workload_container_name
named = refl
