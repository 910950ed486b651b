-- ===== src/NodeUpdates/Bounds/Rounds.antt =====
-- The requests of an update of the status of a Node (pkg/maclet/node.go).
use maclet.Prelude.{ℕ, suc, ◌≡◌, ◌≢◌, ◌⊎◌, refl, Bool, true, false, ◌||◌, List, ◌∷◌, String}
use maclet.Prelude.Exec.{continue}
use maclet.Prelude.Exec.Bind.{◌>>=◌}
use maclet.NodeUpdates.{
  ClusterNode, NodeStatus, Request, get_node, patch_status, put_status, Reply, node_body,
  lease_body, garbled, unreachable, status, not_refreshed, Api, as_node, is_conflict, send, settle,
  refresh_node,
}
use maclet.NodeUpdates.Status.{is_taint_restriction, needs_full_fallback}

module _ (api : List Request → Request → Reply) where
  -- A refresh, by its answer
  by_answer :
      (P : List Request → Type 0) (name : String) (again : ClusterNode → Api ClusterNode)
      (g : List Request) (reply : Reply)
      → api g (get_node name) ≡ reply
      → (((m : ClusterNode) → api g (get_node name) ≢ node_body m) → P (get_node name ∷ g))
      → ((m : ClusterNode)
          → api g (get_node name) ≡ node_body m
          → P (again m (get_node name ∷ g)).1)
      → P (continue (as_node not_refreshed reply) again (get_node name ∷ g)).1
  unfolding as_node
  by_answer P name again g (node_body m) e stuck fresh = fresh m e
  by_answer P name again g (lease_body t) e stuck fresh = stuck (λ m d. cc)
  by_answer P name again g garbled e stuck fresh = stuck (λ m d. cc)
  by_answer P name again g unreachable e stuck fresh = stuck (λ m d. cc)
  by_answer P name again g (status code body) e stuck fresh = stuck (λ m d. cc)

  refreshed :
      (P : List Request → Type 0) (name : String) (again : ClusterNode → Api ClusterNode)
      (g : List Request)
      → (((m : ClusterNode) → api g (get_node name) ≢ node_body m) → P (get_node name ∷ g))
      → ((m : ClusterNode)
          → api g (get_node name) ≡ node_body m
          → P (again m (get_node name ∷ g)).1)
      → P ((refresh_node api name >>= again) g).1
  unfolding refresh_node ◌>>=◌ send settle
  refreshed P name again g stuck fresh =
      by_answer P name again g (api g (get_node name)) refl stuck fresh

  module _ (table : ℕ → ℕ) (report : List Request → ClusterNode → NodeStatus) where
    abbrev pub full : ClusterNode → List Request → Request
    full node h = put_status node (report h node)

    abbrev pub patch : ClusterNode → List Request → Request
    patch node h = patch_status node.object.name node.object.resource_version (report h node)

    abbrev pub is_retried : Reply → Bool
    is_retried reply = is_taint_restriction table reply || is_conflict reply

    -- The full updates of a Node with some attempts left, from the requests before to those after: the last
    -- one, one whose refresh fails, and one that is refreshed and tried again
    pub data IsPuts : ℕ → ClusterNode → List Request → List Request → Type 0 where
      settles :
          {n : ℕ} {node : ClusterNode} {h : List Request}
          → (is_retried (api h (full node h)) ≡ false) ⊎ (n ≡ 0)
          → IsPuts (suc n) node h (full node h ∷ h)
      stuck :
          {n : ℕ} {node : ClusterNode} {h : List Request}
          → is_retried (api h (full node h)) ≡ true
          → ((m : ClusterNode) → api (full node h ∷ h) (get_node node.object.name) ≢ node_body m)
          → IsPuts (suc (suc n)) node h (get_node node.object.name ∷ full node h ∷ h)
      retries :
          {n : ℕ} {node m : ClusterNode} {h k : List Request}
          → is_retried (api h (full node h)) ≡ true
          → api (full node h ∷ h) (get_node node.object.name) ≡ node_body m
          → IsPuts (suc n) m (get_node node.object.name ∷ full node h ∷ h) k
          → IsPuts (suc (suc n)) node h k

    -- The patches likewise; one that the server will not have for the Node is followed by the full updates.
    pub data IsPatches : ℕ → ClusterNode → List Request → List Request → Type 0 where
      settles :
          {n : ℕ} {node : ClusterNode} {h : List Request}
          → needs_full_fallback table (api h (patch node h)) ≡ false
          → (is_conflict (api h (patch node h)) ≡ false) ⊎ (n ≡ 0)
          → IsPatches (suc n) node h (patch node h ∷ h)
      falls_back :
          {n : ℕ} {node : ClusterNode} {h k : List Request}
          → needs_full_fallback table (api h (patch node h)) ≡ true
          → IsPuts 5 node (patch node h ∷ h) k
          → IsPatches (suc n) node h k
      stuck :
          {n : ℕ} {node : ClusterNode} {h : List Request}
          → needs_full_fallback table (api h (patch node h)) ≡ false
          → is_conflict (api h (patch node h)) ≡ true
          → ((m : ClusterNode) → api (patch node h ∷ h) (get_node node.object.name) ≢ node_body m)
          → IsPatches (suc (suc n)) node h (get_node node.object.name ∷ patch node h ∷ h)
      retries :
          {n : ℕ} {node m : ClusterNode} {h k : List Request}
          → needs_full_fallback table (api h (patch node h)) ≡ false
          → is_conflict (api h (patch node h)) ≡ true
          → api (patch node h ∷ h) (get_node node.object.name) ≡ node_body m
          → IsPatches (suc n) m (get_node node.object.name ∷ patch node h ∷ h) k
          → IsPatches (suc (suc n)) node h k
