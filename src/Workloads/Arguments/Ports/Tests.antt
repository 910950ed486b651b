-- ===== src/Workloads/Arguments/Ports/Tests.antt =====
-- Concrete arguments of pkg/maclet/workload_mounts.go.
use maclet.Prelude.{◌≡◌, refl, true, none, some, [], ◌∷◌, ok}
use maclet.Prelude.Text.{codes}
use maclet.Workloads.Arguments.{run_args}
use maclet.Workloads.Arguments.Fixtures.{inputs, web}
use maclet.Workloads.Arguments.Ports.{is_ok, is_supported, is_ok-run_args}
use maclet.Workloads.Reconcile.Fixtures.{bridge}

is_ok-run_args_example :
    is_ok (run_args (λ c. c) (some bridge) inputs web)
    ≡ is_supported (λ c. c) (some bridge) inputs web
is_ok-run_args_example = is_ok-run_args (λ c. c) (some bridge) inputs web

made :
    run_args (λ c. c) none (record inputs { host_network = true }) web
    ≡ ok (
        codes "run"
        ∷ codes "--detach"
        ∷ codes "--net=host"
        ∷ codes "--name"
        ∷ codes "maclet-default-web"
        ∷ codes "--workdir"
        ∷ codes "/srv"
        ∷ codes "--env"
        ∷ codes "A=1"
        ∷ codes "-p"
        ∷ codes "80:auto/tcp"
        ∷ codes "--entrypoint"
        ∷ codes "serve"
        ∷ codes "web:1"
        ∷ codes "--"
        ∷ codes "-v"
        ∷ codes "x"
        ∷ [])
unfolding run_args
made = refl
