-- ===== src/Workloads/Status/Conditions.antt =====
-- The conditions that setPodCondition and desiredPodStatus (pkg/maclet/workload_status.go) leave.
mod Tests
use maclet.Prelude.{
  ℕ, zero, suc, ◌+◌, ◌≡◌, refl, sym, ◌∙◌, ap, Bool, true, false, not, ◌||◌, ◌&&◌, Option, none,
  some, List, [], ◌∷◌, ◌==◌, text_eq, text_eq_iff, text_eq_instance, arith, if◌then◌else◌,
}
use maclet.Prelude.Text.{Text, codes}
use maclet.Workloads.Pods.{Condition, PodStatus, Pod, ContainerStatus}
use maclet.Workloads.Status.{
  scheduled, initialized, set_condition_from, set_pod_condition, readiness, desired_conditions,
  Report, is_ready, desired_pod_status,
}

-- The first condition of a kind
abbrev pub find : Text → List Condition → Option Condition
find kind [] = none
find kind (c ∷ cs) = if text_eq c.kind kind then some c else find kind cs

abbrev pub count : Text → List Condition → ℕ
count kind [] = 0
count kind (c ∷ cs) = if text_eq c.kind kind then suc (count kind cs) else count kind cs

find-set_from :
    (found : Bool) (c : Condition) (cs : List Condition) (kind : Text)
    → find kind (set_condition_from found c cs)
      ≡ (if text_eq c.kind kind then (if found then none else some c) else find kind cs)
unfolding set_condition_from
find-set_from found c [] kind = ground arith
find-set_from found c (e ∷ es) kind = ground (
  arith,
  find-set_from true c es kind,
  find-set_from found c es kind,
  text_eq_iff e.kind c.kind,
  text_eq_iff c.kind kind,
  text_eq_iff e.kind kind,
)

-- After the update there is the new condition of its kind, and the others are as they were.
pub find-set_pod_condition :
    (c : Condition) (cs : List Condition) (kind : Text)
    → find kind (set_pod_condition c cs) ≡ (if text_eq c.kind kind then some c else find kind cs)
unfolding set_pod_condition
find-set_pod_condition c cs kind = find-set_from false c cs kind

count-set_from :
    (found : Bool) (c : Condition) (cs : List Condition) (kind : Text)
    → count kind (set_condition_from found c cs)
      ≡ (if text_eq c.kind kind then (if found then 0 else 1) else count kind cs)
unfolding set_condition_from
count-set_from found c [] kind = ground arith
count-set_from found c (e ∷ es) kind = ground (
  arith,
  count-set_from true c es kind,
  count-set_from found c es kind,
  text_eq_iff e.kind c.kind,
  text_eq_iff c.kind kind,
  text_eq_iff e.kind kind,
)

-- After the update there is exactly one condition of its kind, also when there were more before.
pub count-set_pod_condition :
    (c : Condition) (cs : List Condition) (kind : Text)
    → count kind (set_pod_condition c cs) ≡ (if text_eq c.kind kind then 1 else count kind cs)
unfolding set_pod_condition
count-set_pod_condition c cs kind = count-set_from false c cs kind

-- The conditions on readiness are written once each, and say what the container status says.
pub desired_pod_status-ready :
    (pod : Pod) (node_ip : Text) (r : Report) (now : ℕ)
    → (find (codes "Ready") (desired_pod_status pod node_ip r now).conditions
        ≡ some (readiness (codes "Ready") (is_ready r) now))
      × (find (codes "ContainersReady") (desired_pod_status pod node_ip r now).conditions
          ≡ some (readiness (codes "ContainersReady") (is_ready r) now))
      × (count (codes "Ready") (desired_pod_status pod node_ip r now).conditions ≡ 1)
unfolding desired_pod_status desired_conditions
desired_pod_status-ready pod node_ip r now =
    let ready = is_ready r in
    let cs =
      set_pod_condition (initialized now)
        (set_pod_condition (scheduled now) pod.status.conditions) in
    let one = readiness (codes "Ready") ready now in
    let other = readiness (codes "ContainersReady") ready now in
    (
      find-set_pod_condition other (set_pod_condition one cs) (codes "Ready")
          ∙ find-set_pod_condition one cs (codes "Ready"),
      find-set_pod_condition other (set_pod_condition one cs) (codes "ContainersReady"),
      count-set_pod_condition other (set_pod_condition one cs) (codes "Ready")
          ∙ count-set_pod_condition one cs (codes "Ready"),
    )
