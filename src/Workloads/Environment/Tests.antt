-- ===== src/Workloads/Environment/Tests.antt =====
-- Concrete environments and logs of pkg/maclet/workload_env.go.
use maclet.Prelude.Exec.Bind.{◌>>=◌}
use maclet.Prelude.{
  ◌≡◌, refl, true, false, none, some, List, [], ◌∷◌, ok, contains, text_eq_instance,
}
use maclet.Prelude.Exec.Triples.{Holds}
use maclet.Prelude.Text.{codes}
use maclet.Workloads.Arguments.{run_args}
use maclet.Workloads.Arguments.Fixtures.{inputs, web}
use maclet.Workloads.Reconcile.Fixtures.{bridge}
use maclet.Workloads.Environment.{
  Values, EnvFromSource, EnvVar, PodFields, Read, ObjectKind, Answer, holds, status, assignment,
  config_map, secret, downward_api_value, resolve_container_environment, redact_macker_args,
}
use maclet.Workloads.Environment.Redaction.{debug_line, with_values, debug_line-run_args}
use maclet.Workloads.Environment.Values.{contains-resolve_container_environment}

abbrev settings : Values
settings = (codes "Z", codes "z") ∷ (codes "A", codes "a") ∷ []

-- One ConfigMap, and no Secret
abbrev answer_of : ObjectKind → Answer
answer_of config_map = holds settings
answer_of secret = status 404

abbrev cluster : List Read → Read → Answer
cluster h r = answer_of r.kind

abbrev web_pod : PodFields
web_pod = record {
  namespace = codes "demo";
  name = codes "web";
  uid = codes "u1";
  node_name = codes "mac";
  service_account = codes "default";
  pod_ip = [];
  host_ip = [];
  labels = (codes "app", codes "web") ∷ [];
  annotations = [];
  managed_ip = codes "10.42.3.3";
}

abbrev sources : List EnvFromSource
sources =
    record {
      prefix = codes "C_";
      config_map = some record { name = codes "settings"; optional = false };
      secret = none;
    }
    ∷ []

abbrev from_label : EnvVar
from_label = record {
  name = codes "APP";
  value = [];
  value_from = some record {
    field_ref = some (codes "metadata.labels['app']");
    secret_key = none;
    config_map_key = none;
    resource_field = false;
  };
}

abbrev override : EnvVar
override = record { name = codes "C_A"; value = codes "b"; value_from = none }

contains-resolve_container_environment_example :
    Holds
      (λ env g. contains env (assignment (codes "C_A") (codes "b")) ≡ true)
      (resolve_container_environment cluster true [] web_pod sources
        (from_label ∷ override ∷ [])
        []).0
      (resolve_container_environment cluster true [] web_pod sources
        (from_label ∷ override ∷ [])
        []).1
contains-resolve_container_environment_example =
    contains-resolve_container_environment cluster true [] web_pod sources (codes "C_A") (codes "b")
      (from_label ∷ []) [] [] refl

resolved :
    (resolve_container_environment cluster true [] web_pod sources
      (from_label ∷ override ∷ [])
      []).0
    ≡ ok (codes "APP=web" ∷ codes "C_A=b" ∷ codes "C_Z=z" ∷ [])
unfolding resolve_container_environment ◌>>=◌
resolved = refl

pod_address : downward_api_value web_pod [] (codes " status.podIP") ≡ ok (codes "10.42.3.3")
unfolding downward_api_value
pod_address = refl

log_of_run :
    redact_macker_args (codes "run" ∷ codes "--env" ∷ codes "A=b=c" ∷ codes "web" ∷ [])
    ≡ codes "run" ∷ codes "--env" ∷ codes "A=<redacted>" ∷ codes "web" ∷ []
unfolding redact_macker_args
log_of_run = refl

abbrev other_settings : Values
other_settings = (codes "Z", codes "y") ∷ (codes "A", codes "b") ∷ []

debug_line-run_args_example :
    debug_line (run_args (λ c. c) (some bridge) (with_values inputs settings) web)
    ≡ debug_line (run_args (λ c. c) (some bridge) (with_values inputs other_settings) web)
debug_line-run_args_example =
    debug_line-run_args (λ c. c) settings other_settings refl (some bridge) inputs web
