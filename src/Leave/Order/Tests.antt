-- ===== src/Leave/Order/Tests.antt =====
-- Concrete runs of pkg/maclet/leave.go.
use maclet.Prelude.{◌≡◌, refl, Bool, true, false, some, List, [], ◌∷◌, ◌++◌, All}
use maclet.Prelude.Text.{codes}
use maclet.Leave.{
  Call, delete_node, delete_password_secret, delete_lease, remove_file, apply_search_domains,
  read_search_domains, resolve_service, find_device, read_search_state, remove_resolver,
  clear_flannel, Outcome, done, failed, LocalState, run_leave,
}
use maclet.Leave.Order.{IsSpared, HasSteps, run_leave-failed}

abbrev state : LocalState
state = record { server = codes "https://10.0.0.1:6443"; node_name = codes "mac" }

-- A cluster where every step succeeds, and one where the annotations cannot be cleared.
abbrev willing : List Call → Call → Outcome
willing h c = done

abbrev locked : List Call → Call → Outcome
locked h clear_flannel = failed
locked h c = done

-- The record names no service, and the list has domains of maclet.
abbrev nameless : List Call → Bool
nameless h = false

abbrev has_ours : List Call → Bool
has_ours h = true

run_leave-failed_example :
    (new : List Call) × ((run_leave locked nameless has_ours (some state) [] true []).1 ≡ new ++ [])
    × All IsSpared new
    × HasSteps new
unfolding run_leave
run_leave-failed_example = run_leave-failed locked nameless has_ours (some state) [] true [] 1 refl

-- The record of the search domains is gone although the clean-up failed.
record_removed :
    (run_leave locked nameless has_ours (some state) [] true []).1
    ≡ delete_node
      ∷ delete_password_secret
      ∷ delete_lease
      ∷ clear_flannel
      ∷ remove_file (codes "search-domains.json")
      ∷ apply_search_domains
      ∷ read_search_domains
      ∷ resolve_service
      ∷ find_device
      ∷ read_search_state
      ∷ remove_resolver
      ∷ []
unfolding run_leave
record_removed = refl
