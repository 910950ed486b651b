-- ===== src/NodeUpdates/Lease.antt =====
-- The Lease of the Node (pkg/maclet/node.go): ensureLease. A Lease that is missing when it is read and
-- there when it is created makes the function start again, without a limit; here it runs on fuel.
pub mod Rounds
use maclet.Prelude.{
  ℕ, zero, suc, Bool, true, false, Option, none, some, List, [], ◌∷◌, String, eqb, if◌then◌else◌,
  Result, ok, err,
}
use maclet.NodeUpdates.{
  LeaseSpec, Request, get_lease, create_lease, renew_lease, Reply, node_body, lease_body, garbled,
  unreachable, status, is_conflict,
}

pub data LeaseError : Type 0 where
  not_read not_decoded not_created not_renewed : LeaseError

-- How a call ends: a result of the function, or no fuel left
pub data Ended : Type 0 where
  renewed created : Ended
  refused : LeaseError → Ended
  out_of_fuel : Ended

unfoldable pub is_missing : Reply → Bool
is_missing (status code body) = eqb code 404
is_missing (node_body n) = false
is_missing (lease_body t) = false
is_missing garbled = false
is_missing unreachable = false

-- Whether a request was answered with a body
abbrev pub is_answer : Reply → Bool
is_answer (node_body n) = true
is_answer (lease_body t) = true
is_answer garbled = true
is_answer unreachable = false
is_answer (status code body) = false

module _ (api : List Request → Request → Reply) (clock : List Request → ℕ) (name : String) where
  abbrev pub spec_at : Option ℕ → ℕ → LeaseSpec
  spec_at acquired now = record {
    holder = name;
    duration = 40;
    acquired_at = acquired;
    renewed_at = now;
  }

  -- A Lease that was read keeps the time at which it was acquired.
  abbrev pub or_now : Option ℕ → ℕ → Option ℕ
  or_now none now = some now
  or_now (some t) now = some t

  unfoldable pub renew : Option ℕ → ℕ → List Request → Ended × List Request
  renew acquired now h =
      let r = renew_lease (spec_at acquired now) in
      (if is_answer (api h r) then renewed else refused not_renewed, r ∷ h)

  -- A Lease without a body that decodes is an error; a missing one is created.
  unfoldable pub ensure_lease : ℕ → List Request → Ended × List Request
  unfolding renew is_missing is_conflict
  ensure_lease zero h = (out_of_fuel, h)
  ensure_lease (suc fuel) h =
      let now = clock h in
      let h1 = get_lease name ∷ h in
      let made = create_lease (spec_at (some now) now) in
      let again = ensure_lease fuel (made ∷ h1) in
      let after_create =
        if is_answer (api h1 made)
        then (created, made ∷ h1)
        else if is_conflict (api h1 made)
        then again
        else (refused not_created, made ∷ h1) in
      elim (api h (get_lease name)) [
        | lease_body acquired ↦ renew (or_now acquired now) now h1
        | node_body n ↦ (refused not_decoded, h1)
        | garbled ↦ (refused not_decoded, h1)
        | unreachable ↦ (refused not_read, h1)
        | status code body ↦ if eqb code 404 then after_create else (refused not_read, h1)
      ]
