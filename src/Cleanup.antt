-- ===== src/Cleanup.antt =====
-- Force-deletion of stale native Pods (pkg/maclet/cleanup.go). The API server is an oracle: what it
-- answers may depend on all requests made so far, which are kept newest first. Times are in seconds.
pub mod Guards
use maclet.Prelude.{
  ℕ, suc, ◌+◌, Bool, true, false, not, ◌||◌, ◌&&◌, Option, none, some, List, [], ◌∷◌, eqb, ltb,
  ◌==◌, text_eq_instance, if◌then◌else◌, Result, ok, err,
}
use maclet.Prelude.Text.{Text, codes}
use maclet.Go.Numbers.{ℤ, pos, negsuc}
use maclet.Workloads.Pods.{Pod}

pub data Request : Type 0 where
  list_pods : Text → Text → Request
  delete_pod : Text → Text → Request

-- How a deletion ends: with success, with 404, or with another error
pub data Deletion : Type 0 where
  deleted missing refused : Deletion

pub record Server : Type 0 where
  pub lists : List Request → Option (List Pod)
  pub deletes : List Request → Pod → Deletion

-- The number of Pods removed and of errors joined, and the requests
pub record Pass : Type 0 where
  pub removed : ℕ
  pub errors : ℕ
  pub requests : List Request

unfoldable pub is_fresh : ℕ → ℕ → ℕ → Bool
is_fresh stale_after now deleted_at = ltb 0 stale_after && ltb now (deleted_at + stale_after)

-- Whether the loop goes on to the deletion
unfoldable pub is_stale : Text → ℕ → ℕ → Pod → Bool
unfolding is_fresh
is_stale node stale_after now pod =
    pod.node_name == node
    && pod.native
    && elim pod.deleted_at [ none ↦ false | some t ↦ not (is_fresh stale_after now t) ]

unfoldable pub counted : Deletion → Pass → Pass
counted deleted p = record p { removed = p.removed + 1 }
counted missing p = p
counted refused p = record p { errors = p.errors + 1 }

unfoldable pub with_request : Request → Pass → Pass
with_request r p = record p { requests = r ∷ p.requests }

module _ (server : Server) (node : Text) (stale_after now : ℕ) where
  unfoldable pub cleanup_pod : Pod → Pass → Pass
  unfolding is_stale counted with_request
  cleanup_pod pod p =
      if is_stale node stale_after now pod
      then counted (server.deletes p.requests pod)
          (with_request (delete_pod pod.namespace pod.name) p)
      else p

  unfoldable pub cleanup_pod_list : List Pod → Pass → Pass
  unfolding cleanup_pod
  cleanup_pod_list [] p = p
  cleanup_pod_list (pod ∷ pods) p = cleanup_pod_list pods (cleanup_pod pod p)

  -- The empty namespace stands for all of them; a list that fails is one error.
  unfoldable pub cleanup_terminating_pods : Text → List Request → Pass
  unfolding cleanup_pod_list
  cleanup_terminating_pods namespace h = elim (server.lists h) [
    | none ↦ record { removed = 0; errors = 1; requests = list_pods node namespace ∷ h }
    | some pods ↦
        cleanup_pod_list pods
          record { removed = 0; errors = 0; requests = list_pods node namespace ∷ h }
  ]

pub record Config : Type 0 where
  pub node_name : Text
  pub namespace : Text
  pub stale_after : ℤ
  pub once : Bool

pub data ConfigError : Type 0 where
  no_node_name negative_stale_after cleanup_failed : ConfigError

abbrev pub default_namespace : Text
default_namespace = codes "maclet-system"

unfoldable pub checked_stale_after : ℤ → Result ConfigError ℕ
checked_stale_after (pos n) = ok n
checked_stale_after (negsuc n) = err negative_stale_after

unfoldable pub namespace_of : Config → Text
namespace_of cfg = if cfg.namespace == [] then default_namespace else cfg.namespace

-- A pass for each tick, at the time of the tick; its errors are only logged.
unfoldable pub tick_all : Server → Text → Text → ℕ → List ℕ → List Request → List Request
unfolding cleanup_terminating_pods
tick_all server node namespace stale_after [] h = h
tick_all server node namespace stale_after (now ∷ nows) h =
    tick_all server node namespace stale_after nows
      (cleanup_terminating_pods server node stale_after now namespace h).requests

unfoldable pub run_passes :
    Server → Config → ℕ → ℕ → List ℕ → List Request → Result ConfigError (Unit {0}) × List Request
unfolding cleanup_terminating_pods tick_all namespace_of
run_passes server cfg stale_after start ticks h =
    let first =
      cleanup_terminating_pods server cfg.node_name stale_after start (namespace_of cfg) h in
    let later = tick_all server cfg.node_name (namespace_of cfg) stale_after ticks first.requests in
    if cfg.once
    then (if ltb 0 first.errors
        then (err cleanup_failed, first.requests)
        else (ok tt, first.requests))
    else (ok tt, later)

-- runCleanupController with its client loaded: the first pass, then one for each tick until the
-- context ends
unfoldable pub run_cleanup_controller :
    Server → Config → ℕ → List ℕ → List Request → Result ConfigError (Unit {0}) × List Request
unfolding run_passes checked_stale_after
run_cleanup_controller server cfg start ticks h =
    if cfg.node_name == []
    then (err no_node_name, h)
    else elim (checked_stale_after cfg.stale_after) [
      | err e ↦ (err e, h)
      | ok stale_after ↦ run_passes server cfg stale_after start ticks h
    ]
