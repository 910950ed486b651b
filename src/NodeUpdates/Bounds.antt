-- ===== src/NodeUpdates/Bounds.antt =====
-- How many requests an update of the Node sends, and that its loops never run out of attempts
-- (pkg/maclet/node.go).
pub mod Rounds
mod Tests
use maclet.Prelude.{
  ℕ, zero, suc, ◌+◌, ◌*◌, ◌≤◌, ◌≡◌, ◌≢◌, refl, Bool, true, false, ◌||◌, ◌&&◌, List, [], ◌∷◌, String,
  arith, ltb, length, if◌then◌else◌, Result, ok, err, Bool-cases, inl, inr,
}
use maclet.Prelude.Exec.{pure, fail, continue}
use maclet.Prelude.Exec.Bind.{◌>>=◌, ◌>>◌}
use maclet.NodeUpdates.{
  ClusterNode, NodeStatus, Request, get_node, patch_cordon, patch_status, put_status, Reply,
  node_body, lease_body, garbled, unreachable, status, UpdateError, not_updated, not_refreshed,
  not_decoded, limit_exceeded, Api, attempts, as_node, is_settled, is_conflict, send, settle,
  refresh_node, if_unsettled, attempt_cordon, set_node_shutdown_cordon,
}
use maclet.NodeUpdates.Status.{
  is_taint_restriction, needs_full_fallback, attempt_put, attempt_patch, update_node_status,
}

-- The result is not the error of a loop that ran out of attempts.
abbrev pub IsWithin : {A : Type 0} → Result UpdateError A → Type 0
IsWithin (ok a) = Unit
IsWithin (err e) = e ≢ limit_exceeded

-- At most `k` requests are sent, and no loop runs out of attempts.
pub record IsBounded {A : Type 0} (k : ℕ) (m : Api A) : Type 0 where
  pub at : (h : List Request) → (length (m h).1 ≤ length h + k) × IsWithin (m h).0

IsBounded-weaken : {A : Type 0} {j k : ℕ} {m : Api A} → j ≤ k → IsBounded j m → IsBounded k m
IsBounded-weaken le b = record { at = λ h. (omega (arith, (b.at h).0, le), (b.at h).1) }

module _ {A B : Type 0} {k : ℕ} where
  continue-IsBounded :
      (r : Result UpdateError A) (f : A → Api B) (s : List Request)
      → IsWithin r
      → ((a : A) → IsBounded k (f a))
      → (length (continue r f s).1 ≤ length s + k) × IsWithin (continue r f s).0
  continue-IsBounded (ok a) f s w b = (b a).at s
  continue-IsBounded (err e) f s w b = (omega arith, w)

  IsBounded-bind :
      {j : ℕ} {m : Api A} {f : A → Api B}
      → IsBounded j m
      → ((a : A) → IsBounded k (f a))
      → IsBounded (j + k) (m >>= f)
  unfolding ◌>>=◌
  IsBounded-bind {j = j} {m = m} {f = f} bm bf = record {
    at = λ h.
        let (l, w) = bm.at h in
        let (l', w') = continue-IsBounded (m h).0 f (m h).1 w bf in (omega (arith, l, l'), w');
  }

IsBounded-if :
    {A : Type 0} {k : ℕ} {b : Bool} {m n : Api A}
    → (b ≡ true → IsBounded k m)
    → (b ≡ false → IsBounded k n)
    → IsBounded k (if b then m else n)
IsBounded-if {b = true} bm bn = bm refl
IsBounded-if {b = false} bm bn = bn refl

module _ (api : List Request → Request → Reply) where
  IsBounded-send : (r : Request) → IsBounded 1 (send api r)
  unfolding send
  IsBounded-send r = record { at = λ h. (omega arith, tt) }

  as_node-IsWithin : (e : UpdateError) (r : Reply) → e ≢ limit_exceeded → IsWithin (as_node e r)
  unfolding as_node
  as_node-IsWithin e (node_body n) ne = tt
  as_node-IsWithin e (lease_body t) ne = λ x. cc
  as_node-IsWithin e garbled ne = λ x. cc
  as_node-IsWithin e unreachable ne = ne
  as_node-IsWithin e (status code body) ne = ne

  IsBounded-settle :
      (e : UpdateError) (r : Reply) → e ≢ limit_exceeded → IsBounded 0 (settle api e r)
  unfolding settle
  IsBounded-settle e r ne = record { at = λ h. (omega arith, as_node-IsWithin e r ne) }

  -- The last word of an attempt
  IsBounded-settled : (k : ℕ) (reply : Reply) → IsBounded k (settle api not_updated reply)
  IsBounded-settled k reply =
      IsBounded-weaken {j = 0} (omega arith) (IsBounded-settle not_updated reply (λ e. cc))

  IsBounded-refresh : (name : String) → IsBounded 1 (refresh_node api name)
  unfolding refresh_node
  IsBounded-refresh name =
      IsBounded-bind {k = 0} {j = 1} (IsBounded-send (get_node name))
        (λ r. IsBounded-settle not_refreshed r (λ x. cc))

  IsBounded-if_unsettled :
      (k : ℕ) (cordon : Bool) (again : ClusterNode → Api ClusterNode) (n : ClusterNode)
      → ((m : ClusterNode) → IsBounded k (again m))
      → IsBounded k (if_unsettled api cordon again n)
  unfolding if_unsettled
  IsBounded-if_unsettled k cordon again n b =
      IsBounded-if {b = is_settled cordon n} (λ x. record { at = λ h. (omega arith, tt) })
        (λ x. b n)

  attempt_cordon-IsBounded :
      (n : ℕ) (name : String) (cordon : Bool)
      → IsBounded (2 * n + 1) (attempt_cordon api (suc n) name cordon)
  unfolding attempt_cordon
  attempt_cordon-IsBounded zero name cordon =
      IsBounded-bind {k = 0} {j = 1} (IsBounded-send (patch_cordon name cordon)) (λ reply.
        IsBounded-if {b = is_conflict reply && ltb 0 0} (λ x. ground (arith, x))
          (λ x. IsBounded-settle not_updated reply (λ e. cc)))
  attempt_cordon-IsBounded (suc n) name cordon =
      IsBounded-weaken {j = 1 + (1 + (2 * n + 1))} (omega arith) (
        IsBounded-bind {k = 1 + (2 * n + 1)} {j = 1} (IsBounded-send (patch_cordon name cordon))
          (λ reply.
            IsBounded-if {b = is_conflict reply && ltb 0 (suc n)}
              (λ x. IsBounded-bind {k = 2 * n + 1} {j = 1} (IsBounded-refresh name) (λ fresh.
                IsBounded-if_unsettled (2 * n + 1) cordon
                  (λ m. attempt_cordon api (suc n) name cordon) fresh
                  (λ m. attempt_cordon-IsBounded n name cordon)))
              (λ x.
                IsBounded-weaken {j = 0} (omega arith)
                  (IsBounded-settle not_updated reply (λ e. cc)))))

  -- The cordon is set or lifted with at most nine requests, and the loop never runs out of attempts
  -- without a result of the last one.
  pub set_node_shutdown_cordon-IsBounded :
      (node : ClusterNode) (cordon : Bool) → IsBounded 9 (set_node_shutdown_cordon api node cordon)
  unfolding set_node_shutdown_cordon
  set_node_shutdown_cordon-IsBounded node cordon =
      IsBounded-if_unsettled 9 cordon _ node (λ n. attempt_cordon-IsBounded 4 n.object.name cordon)

  module _ (table : ℕ → ℕ) (report : List Request → ClusterNode → NodeStatus) where
    IsBounded-put :
        (node : ClusterNode) → IsBounded 1 (λ h. send api (put_status node (report h node)) h)
    unfolding send
    IsBounded-put node = record { at = λ h. (omega arith, tt) }

    IsBounded-patch :
        (node : ClusterNode)
        → IsBounded 1 (λ h.
          send api (patch_status node.object.name node.object.resource_version (report h node)) h)
    unfolding send
    IsBounded-patch node = record { at = λ h. (omega arith, tt) }

    attempt_put-IsBounded :
        (n : ℕ) (node : ClusterNode)
        → IsBounded (2 * n + 1) (attempt_put table api report (suc n) node)
    unfolding attempt_put
    attempt_put-IsBounded zero node = IsBounded-bind {k = 0} {j = 1} (IsBounded-put node) (λ reply.
        IsBounded-if {b = (is_taint_restriction table reply || is_conflict reply) && ltb 0 0}
          (λ x. ground (arith, x)) (λ x. IsBounded-settle not_updated reply (λ e. cc)))
    attempt_put-IsBounded (suc n) node =
        IsBounded-weaken {j = 1 + (1 + (2 * n + 1))} (omega arith) (
          IsBounded-bind {k = 1 + (2 * n + 1)} {j = 1} (IsBounded-put node) (λ reply.
            IsBounded-if
              {b = (is_taint_restriction table reply || is_conflict reply) && ltb 0 (suc n)}
              (λ x.
                IsBounded-bind {k = 2 * n + 1} {j = 1} (IsBounded-refresh node.object.name)
                  (λ fresh. attempt_put-IsBounded n fresh))
              (λ x.
                IsBounded-weaken {j = 0} (omega arith)
                  (IsBounded-settle not_updated reply (λ e. cc)))))

    attempt_patch-IsBounded :
        (n : ℕ) (node : ClusterNode)
        → IsBounded (2 * n + 10) (attempt_patch table api report (suc n) node)
    unfolding attempt_patch
    attempt_patch-IsBounded zero node =
        IsBounded-bind {k = 9} {j = 1} (IsBounded-patch node) (λ reply.
          IsBounded-if {b = needs_full_fallback table reply} (λ x. attempt_put-IsBounded 4 node)
            (λ x.
              IsBounded-if {b = is_conflict reply && ltb 0 0} (λ y. ground (arith, y))
                (λ y. IsBounded-settled 9 reply)))
    attempt_patch-IsBounded (suc n) node =
        IsBounded-weaken {j = 1 + (1 + (2 * n + 10))} (omega arith) (
          IsBounded-bind {k = 1 + (2 * n + 10)} {j = 1} (IsBounded-patch node) (λ reply.
            IsBounded-if {b = needs_full_fallback table reply}
              (λ x. IsBounded-weaken {j = 9} (omega arith) (attempt_put-IsBounded 4 node))
              (λ x.
                IsBounded-if {b = is_conflict reply && ltb 0 (suc n)}
                  (λ y.
                    IsBounded-bind {k = 2 * n + 10} {j = 1} (IsBounded-refresh node.object.name)
                      (λ fresh. attempt_patch-IsBounded n fresh))
                  (λ y. IsBounded-settled (1 + (2 * n + 10)) reply))))

    -- A status update sends at most eighteen requests, and its loops never run out of attempts.
    pub update_node_status-IsBounded :
        (node : ClusterNode) → IsBounded 18 (update_node_status table api report node)
    unfolding update_node_status
    update_node_status-IsBounded node = attempt_patch-IsBounded 4 node
