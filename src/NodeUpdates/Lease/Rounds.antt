-- ===== src/NodeUpdates/Lease/Rounds.antt =====
-- How the rounds of ensureLease end (pkg/maclet/node.go).
mod Tests
use maclet.Prelude.{
  ℕ, zero, suc, ◌+◌, ◌≡◌, ◌↔◌, refl, Bool, true, false, ◌&&◌, not, Option, none, some, List, [],
  ◌∷◌, String, arith, eqb, if◌then◌else◌, Bool-cases, inl, inr,
}
use maclet.NodeUpdates.{
  LeaseSpec, Request, get_lease, create_lease, renew_lease, Reply, node_body, lease_body, garbled,
  unreachable, status, is_conflict,
}
use maclet.NodeUpdates.Lease.{
  LeaseError, Ended, renewed, created, refused, out_of_fuel, is_missing, is_answer, spec_at, or_now,
  renew, ensure_lease,
}

module _ (api : List Request → Request → Reply) (clock : List Request → ℕ) (name : String) where
  -- The request that creates the Lease in the round that begins with these requests
  abbrev pub creation : List Request → Request
  creation h = create_lease (spec_at api clock name (some (clock h)) (clock h))

  -- The round finds no Lease and then loses the race to create it.
  abbrev pub is_lost : List Request → Bool
  is_lost h =
      is_missing (api h (get_lease name)) && is_conflict (api (get_lease name ∷ h) (creation h))

  -- The next rounds are lost, as many as given.
  abbrev pub IsLosing : ℕ → List Request → Type 0
  IsLosing zero h = Unit
  IsLosing (suc n) h = (is_lost h ≡ true) × IsLosing n (creation h ∷ get_lease name ∷ h)

  -- The fuel runs out exactly if as many rounds are lost: where the server lets one of them through, in
  -- that round the function ends.
  pub ensure_lease-out_of_fuel :
      (fuel : ℕ) (h : List Request)
      → ((ensure_lease api clock name fuel h).0 ≡ out_of_fuel) ↔ IsLosing fuel h
  unfolding ensure_lease is_missing is_conflict renew
  ensure_lease-out_of_fuel zero h = (λ e. tt, λ l. refl)
  ensure_lease-out_of_fuel (suc fuel) h =
      ground (arith, ensure_lease-out_of_fuel fuel (creation h ∷ get_lease name ∷ h))
