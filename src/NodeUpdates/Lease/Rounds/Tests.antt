-- ===== src/NodeUpdates/Lease/Rounds/Tests.antt =====
-- Concrete Leases of pkg/maclet/node.go.
use maclet.Prelude.{◌≡◌, refl, some, List, [], ◌∷◌}
use maclet.NodeUpdates.{Request, Reply, lease_body, status}
use maclet.NodeUpdates.Lease.{renewed, ensure_lease}

-- The Lease appears behind the first round.
abbrev racing : List Request → Request → Reply
racing [] r = status 404 []
racing (q ∷ []) r = status 409 []
racing (q ∷ p ∷ h) r = lease_body (some 1)

second_round : (ensure_lease racing (λ h. 7) "mac" 2 []).0 ≡ renewed
unfolding ensure_lease
second_round = refl
