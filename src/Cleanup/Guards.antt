-- ===== src/Cleanup/Guards.antt =====
-- Which Pods the clean-up of pkg/maclet/cleanup.go deletes.
mod Tests
use maclet.Prelude.{
  ℕ, ◌+◌, ◌≤◌, ◌≡◌, refl, sym, ◌∙◌, ap, ◌⊎◌, ◌↔◌, inl, inr, Bool, true, false, not, ◌||◌, ◌&&◌,
  Option, none, some, List, [], ◌∷◌, eqb, ltb, ◌==◌, text_eq_iff, text_eq_instance, arith,
  if◌then◌else◌, Option-cases,
}
use maclet.Prelude.Text.{Text}
use maclet.Workloads.Pods.{Pod}
use maclet.Cleanup.{
  Request, list_pods, delete_pod, Deletion, deleted, missing, refused, Server, Pass, is_fresh,
  is_stale, counted, with_request, cleanup_pod, cleanup_pod_list,
}

-- A Pod is deleted exactly if it is a native Pod of the Node whose deletion was asked for at least the
-- period ago, or at any time if there is no period.
pub is_stale_iff :
    (node : Text) (stale_after now : ℕ) (pod : Pod)
    → (is_stale node stale_after now pod ≡ true) ↔ (
        (pod.node_name ≡ node)
        × (pod.native ≡ true)
        × (t : ℕ) × (pod.deleted_at ≡ some t)
        × ((stale_after ≡ 0) ⊎ (t + stale_after ≤ now)))
unfolding is_stale is_fresh
is_stale_iff node stale_after now pod = elim (Option-cases pod.deleted_at) [
  | inl none_there ↦ (
    λ h. absurd (ground (arith, h, none_there)),
    λ (a, b, t, c, d). absurd (ground (arith, c, none_there)),
  )
  | inr (t, there) ↦ (
    λ h. (
      ground (arith, h, there, text_eq_iff pod.node_name node),
      ground (arith, h, there),
      t,
      there,
      ground (arith, h, there),
    ),
    λ (a, b, s, c, d). ground (arith, a, b, c, d, there, text_eq_iff pod.node_name node),
  )
]

-- The deletions of the stale Pods, newest first
abbrev pub delete_calls : Text → ℕ → ℕ → List Pod → List Request → List Request
delete_calls node stale_after now [] h = h
delete_calls node stale_after now (pod ∷ pods) h =
    if is_stale node stale_after now pod
    then delete_calls node stale_after now pods (delete_pod pod.namespace pod.name ∷ h)
    else delete_calls node stale_after now pods h

module _ (server : Server) (node : Text) (stale_after now : ℕ) where
  cleanup_pod-requests :
      (pod : Pod) (p : Pass)
      → (cleanup_pod server node stale_after now pod p).requests ≡ (
          if is_stale node stale_after now pod
          then delete_pod pod.namespace pod.name ∷ p.requests
          else p.requests)
  unfolding cleanup_pod counted with_request
  cleanup_pod-requests pod p = ground arith

  -- Whatever the server answers, the pass asks to delete each stale Pod of the list once, in order, and
  -- nothing else: a deletion that fails does not keep it from the next.
  pub cleanup_pod_list-requests :
      (pods : List Pod) (p : Pass)
      → (cleanup_pod_list server node stale_after now pods p).requests
        ≡ delete_calls node stale_after now pods p.requests
  unfolding cleanup_pod_list
  cleanup_pod_list-requests [] p = refl
  cleanup_pod_list-requests (pod ∷ pods) p =
      cleanup_pod_list-requests pods (cleanup_pod server node stale_after now pod p)
      ∙ ap (delete_calls node stale_after now pods) (cleanup_pod-requests pod p)
      ∙ into (is_stale node stale_after now pod)
    where
      into :
          (b : Bool)
          → delete_calls node stale_after now pods
              (if b then delete_pod pod.namespace pod.name ∷ p.requests else p.requests)
            ≡ (if b
                then delete_calls node stale_after now pods
                    (delete_pod pod.namespace pod.name ∷ p.requests)
                else delete_calls node stale_after now pods p.requests)
      into true = refl
      into false = refl
