-- ===== src/Workloads/Status.antt =====
-- setPodCondition and desiredPodStatus (pkg/maclet/workload_status.go).
pub mod Conditions
use maclet.Prelude.{
  ℕ, zero, Bool, true, false, not, ◌||◌, ◌&&◌, Option, none, some, List, [], ◌∷◌, ◌++◌, ◌==◌,
  text_eq_instance, if◌then◌else◌,
}
use maclet.Prelude.Text.{Text, codes}
use maclet.Go.Numbers.{ℤ, pos}
use maclet.Workloads.Pods.{
  Condition, Terminated, ContainerState, running_since, terminated, waiting, ContainerStatus,
  PodStatus, Container, Pod, Inspection,
}

-- The loop of setPodCondition, with whether the condition was written already
unfoldable pub set_condition_from : Bool → Condition → List Condition → List Condition
set_condition_from found c [] = if found then [] else c ∷ []
set_condition_from found c (e ∷ es) =
    let written = set_condition_from true c es in
    let rest = set_condition_from found c es in
    if e.kind == c.kind then (if found then written else c ∷ written) else e ∷ rest

unfoldable pub set_pod_condition : Condition → List Condition → List Condition
unfolding set_condition_from
set_pod_condition c cs = set_condition_from false c cs

-- The arguments of desiredPodStatus beside the Pod and the Node's address
pub record Report : Type 0 where
  pub phase : Text
  pub ip : Text
  pub reason : Text
  pub message : Text
  pub running : Bool
  pub restart_count : ℤ
  pub termination : Option Inspection

abbrev pub scheduled : ℕ → Condition
scheduled now = record {
  kind = codes "PodScheduled";
  status = codes "True";
  stamp = now;
  reason = codes "PodScheduled";
  message = codes "Pod was successfully assigned to this node";
}

abbrev pub initialized : ℕ → Condition
initialized now = record {
  kind = codes "Initialized";
  status = codes "True";
  stamp = now;
  reason = codes "PodInitialized";
  message = codes "Pod initialization completed";
}

-- The two conditions on readiness differ in their kind alone.
abbrev pub readiness : Text → Bool → ℕ → Condition
readiness kind ready now = record {
  kind = kind;
  status = if ready then codes "True" else codes "False";
  stamp = now;
  reason = if ready then codes "ContainersReady" else codes "ContainersNotReady";
  message = if ready then codes "containers are ready" else codes "containers are not ready";
}

unfoldable pub desired_conditions : Bool → ℕ → List Condition → List Condition
unfolding set_pod_condition
desired_conditions ready now cs =
    set_pod_condition (readiness (codes "ContainersReady") ready now) (
      set_pod_condition (readiness (codes "Ready") ready now)
        (set_pod_condition (initialized now) (set_pod_condition (scheduled now) cs)))

abbrev pub or_zero : Option ℤ → ℤ
or_zero none = pos zero
or_zero (some n) = n

abbrev pub or_now : Option ℕ → ℕ → ℕ
or_now none now = now
or_now (some t) now = t

-- What is added to the message of a workload that ended
unfoldable pub termination_detail : Text → Text → Text
termination_detail reason signal =
    if signal == []
    then reason
    else (if reason == [] then [] else reason ++ codes "; ") ++ (codes "signal=" ++ signal)

unfoldable pub with_detail : Text → Text → Text
with_detail message detail =
    if detail == [] then message else message ++ (codes "; Macker termination: " ++ detail)

unfoldable pub terminated_state : Text → Text → ℕ → Option Inspection → Terminated
unfolding termination_detail with_detail
terminated_state reason message now none = record {
  exit_code = pos zero;
  reason = reason;
  message = message;
  started_at = none;
  finished_at = now;
}
terminated_state reason message now (some i) = record {
  exit_code = or_zero i.exit_code;
  reason = reason;
  message = with_detail message (termination_detail i.termination_reason i.termination_signal);
  started_at = i.started_at;
  finished_at = or_now i.finished_at now;
}

unfoldable pub waiting_reason : Text → Text
waiting_reason reason =
    if reason == codes "MacletUnsupportedPod"
    then codes "CreateContainerConfigError"
    else if reason == codes "MacletMackerLaunchFailed"
    then codes "RunContainerError"
    else codes "ContainerCreating"

unfoldable pub desired_state : Report → ℕ → ContainerState
unfolding terminated_state waiting_reason
desired_state r now =
    if r.running
    then running_since now
    else if r.phase == codes "Succeeded"
    then terminated (terminated_state (codes "Completed") r.message now r.termination)
    else if r.phase == codes "Failed"
    then terminated (terminated_state (codes "Error") r.message now r.termination)
    else waiting (waiting_reason r.reason) r.message

abbrev pub first_name : List Container → Text
first_name [] = []
first_name (c ∷ cs) = c.name

abbrev pub first_image : List Container → Text
first_image [] = []
first_image (c ∷ cs) = c.image

unfoldable pub is_ready : Report → Bool
is_ready r = r.running && r.phase == codes "Running"

unfoldable pub desired_pod_status : Pod → Text → Report → ℕ → PodStatus
unfolding desired_conditions desired_state is_ready
desired_pod_status pod node_ip r now = record {
  phase = r.phase;
  pod_ip = r.ip;
  pod_ips = if r.ip == [] then [] else r.ip ∷ [];
  host_ip = node_ip;
  reason = [];
  message = r.message;
  conditions = desired_conditions (is_ready r) now pod.status.conditions;
  container_statuses =
      record {
        name = first_name pod.containers;
        image = first_image pod.containers;
        ready = is_ready r;
        restart_count = r.restart_count;
        state = desired_state r now;
      }
      ∷ [];
}
