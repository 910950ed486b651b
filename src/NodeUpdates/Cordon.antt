-- ===== src/NodeUpdates/Cordon.antt =====
-- Which Nodes the shutdown cordon touches (pkg/maclet/node.go).
mod Tests
use maclet.Prelude.{
  ℕ, zero, suc, ◌≡◌, refl, Bool, true, false, not, ◌&&◌, ◌⊎◌, List, [], ◌∷◌, String, arith, ltb,
  if◌then◌else◌, Result, ok, err, Bool-cases, inl, inr, subst, sym,
}
use maclet.Prelude.Exec.{pure, fail}
use maclet.Prelude.Exec.Bind.{◌>>=◌, ◌>>◌}
use maclet.Prelude.Exec.Triples.{Holds, Triple, Triple-pure, Triple-fail, Triple-if, Triple-bind}
use maclet.NodeUpdates.{
  ClusterNode, Request, patch_cordon, get_node, Reply, node_body, lease_body, garbled, unreachable,
  status, Api, attempts, is_settled, is_conflict, send, settle, refresh_node, if_unsettled,
  attempt_cordon, set_node_shutdown_cordon, not_updated, not_refreshed, limit_exceeded, UpdateError,
  as_node,
}

module _ (api : List Request → Request → Reply) (cordon : Bool) where
  -- The reply is that to the latest request, which is a patch that sets or lifts the cordon.
  abbrev pub IsAnswered : Reply → List Request → Type 0
  IsAnswered reply (patch_cordon name c ∷ h) = (c ≡ cordon) × (api h (patch_cordon name c) ≡ reply)
  IsAnswered reply h = ⊥

  -- The Node needs no change, or it is what the server made of the latest patch.
  abbrev pub IsDone : ClusterNode → List Request → Type 0
  IsDone n h = (is_settled cordon n ≡ true) ⊎ IsAnswered (node_body n) h

  Triple-send :
      (name : String) → Triple (λ h. Unit {0}) IsAnswered (send api (patch_cordon name cordon))
  unfolding send
  Triple-send name = record { at = λ h p. (refl, refl) }

  Triple-settle :
      (e : UpdateError) (reply : Reply) → Triple (IsAnswered reply) IsDone (settle api e reply)
  unfolding settle as_node
  Triple-settle e (node_body n) = record { at = λ h p. inr p }
  Triple-settle e (lease_body t) = record { at = λ h p. tt }
  Triple-settle e garbled = record { at = λ h p. tt }
  Triple-settle e unreachable = record { at = λ h p. tt }
  Triple-settle e (status code body) = record { at = λ h p. tt }

  Triple-refresh :
      {P : List Request → Type 0} (name : String)
      → Triple P (λ fresh h. Unit {0}) (refresh_node api name)
  Triple-refresh name = record {
    at = λ h p. anything (refresh_node api name h).0 (refresh_node api name h).1;
  }
    where
      anything :
          (r : Result UpdateError ClusterNode) (g : List Request) → Holds (λ n k. Unit {0}) r g
      anything (ok a) g = tt
      anything (err e) g = tt

  Triple-if_unsettled :
      {P : List Request → Type 0} (again : ClusterNode → Api ClusterNode) (n : ClusterNode)
      → Triple P IsDone (again n)
      → Triple P IsDone (if_unsettled api cordon again n)
  unfolding if_unsettled
  Triple-if_unsettled again n t =
      Triple-if {b = is_settled cordon n} (λ x. Triple-pure n (λ h p. inl x)) (λ x. t)

  Triple-attempt :
      {P : List Request → Type 0} (n : ℕ) (name : String)
      → Triple P IsDone (attempt_cordon api n name cordon)
  unfolding attempt_cordon
  Triple-attempt zero name = Triple-fail limit_exceeded
  Triple-attempt (suc n) name =
      Triple-bind {Q = IsAnswered} (record { at = λ h p. (Triple-send name).at h tt })
        (λ reply.
          Triple-if {b = is_conflict reply && ltb 0 n}
            (λ x. Triple-bind {Q = λ fresh h. Unit {0}} (Triple-refresh name) (λ fresh.
              Triple-if_unsettled (λ m. attempt_cordon api n name cordon) fresh
                (Triple-attempt n name)))
            (λ x. Triple-settle not_updated reply))

  -- Where the cordon is set or lifted without an error, the Node that comes back needs no change, as it
  -- was given or refreshed, or it is what the server answered to the latest request, a patch with that
  -- very cordon.
  pub set_node_shutdown_cordon-IsDone :
      (node : ClusterNode) (h : List Request)
      → Holds IsDone
          (set_node_shutdown_cordon api node cordon h).0
          (set_node_shutdown_cordon api node cordon h).1
  unfolding set_node_shutdown_cordon
  set_node_shutdown_cordon-IsDone node h =
      (Triple-if_unsettled {P = λ g. Unit {0}}
          (λ n. attempt_cordon api attempts n.object.name cordon) node
          (Triple-attempt attempts node.object.name)).at
        h tt
