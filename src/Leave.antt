-- ===== src/Leave.antt =====
-- Leaving a cluster (pkg/maclet/leave.go). Each step outside of the program is a call whose outcome an
-- oracle gives by all calls made so far, which are kept newest first.
pub mod Order
use maclet.Prelude.{
  ℕ, ◌+◌, Bool, true, false, not, ◌||◌, ◌&&◌, Option, none, some, List, [], ◌∷◌, eqb, ltb, ◌==◌,
  text_eq_instance, if◌then◌else◌, Result, ok, err,
}
use maclet.Prelude.Text.{Text, codes}

pub data Call : Type 0 where
  remove_resolver clear_flannel delete_lease delete_password_secret delete_node : Call
  read_search_state find_device resolve_service read_search_domains apply_search_domains : Call
  remove_file : Text → Call
  remove_state_dir : Call

-- `gone` is a 404 of the API server or a file that is not there; a directory may not be empty.
pub data Outcome : Type 0 where
  done gone not_empty failed : Outcome

pub record LocalState : Type 0 where
  pub server : Text
  pub node_name : Text

pub data LeaveError : Type 0 where
  no_state incomplete_state other_node no_client : LeaveError
  cleanup_errors state_errors : ℕ → LeaveError

unfoldable pub complete_state : Option LocalState → Result LeaveError LocalState
complete_state none = err no_state
complete_state (some s) = if s.server == [] || s.node_name == [] then err incomplete_state else ok s

abbrev pub state_files : List Text
state_files =
    codes "state.json"
    ∷ codes "workloads.json"
    ∷ codes "server-ca.crt"
    ∷ codes "client-kubelet.crt"
    ∷ codes "client-kubelet.key"
    ∷ codes "client-k3s-controller.crt"
    ∷ codes "client-k3s-controller.key"
    ∷ codes "client-ca.crt"
    ∷ codes "serving-kubelet.crt"
    ∷ codes "serving-kubelet.key"
    ∷ codes "node-password"
    ∷ []

-- The number of errors joined, and the calls
abbrev pub Step : Type 0
Step = List Call → ℕ × List Call

abbrev pub strict : Outcome → ℕ
strict done = 0
strict gone = 1
strict not_empty = 1
strict failed = 1

abbrev pub unless_gone : Outcome → ℕ
unless_gone done = 0
unless_gone gone = 0
unless_gone not_empty = 1
unless_gone failed = 1

abbrev pub unless_gone_or_full : Outcome → ℕ
unless_gone_or_full done = 0
unless_gone_or_full gone = 0
unless_gone_or_full not_empty = 0
unless_gone_or_full failed = 1

infixl 5 ◌also◌
abbrev pub ◌also◌ : Step → Step → Step
◌also◌ f g h = let (a, h1) = f h in let (b, h2) = g h1 in (a + b, h2)

-- The second step only if the first had no error
infixl 5 ◌onward◌
abbrev pub ◌onward◌ : Step → Step → Step
◌onward◌ f g h = let (a, h1) = f h in if ltb 0 a then (a, h1) else g h1

module _ (host : List Call → Call → Outcome) where
  unfoldable pub attempt : (Outcome → ℕ) → Call → Step
  attempt f c h = (f (host h c), c ∷ h)

  unfoldable pub leave_cluster_resources : Step
  unfolding attempt
  leave_cluster_resources =
      attempt strict clear_flannel
      also attempt unless_gone delete_lease
      also attempt unless_gone delete_password_secret
      also attempt unless_gone delete_node

  unfoldable pub remove_files : List Text → Step
  unfolding attempt
  remove_files [] h = (0, h)
  remove_files (f ∷ fs) h = (attempt unless_gone (remove_file f) also remove_files fs) h

  unfoldable pub remove_local_state_files : Step
  unfolding remove_files attempt
  remove_local_state_files =
      remove_files state_files also attempt unless_gone_or_full remove_state_dir

  unfoldable pub after_cleanup : ℕ → List Call → Result LeaveError (Unit {0}) × List Call
  unfolding remove_local_state_files
  after_cleanup errors h =
      let (e, h') = remove_local_state_files h in
      if ltb 0 errors
      then (err (cleanup_errors errors), h)
      else if ltb 0 e
      then (err (state_errors e), h')
      else (ok tt, h')

  -- Whether the record of the search domains that was read names a service, and whether the search list
  -- that was read has domains of maclet
  module _ (known_service any_ours : List Call → Bool) where
    -- cleanupLeaveSearchDomains, up to the removal of the record in the directory of the state
    unfoldable pub clear_search_domains : Step
    unfolding attempt
    clear_search_domains =
        attempt unless_gone read_search_state
        onward (λ h. if known_service h then (0, h) else attempt strict find_device h)
        onward attempt strict resolve_service
        onward attempt strict read_search_domains
        onward (λ h. if any_ours h then attempt strict apply_search_domains h else (0, h))
        onward attempt unless_gone (remove_file (codes "search-domains.json"))

    unfoldable pub clean_up : Step
    unfolding attempt clear_search_domains leave_cluster_resources
    clean_up = attempt strict remove_resolver also clear_search_domains also leave_cluster_resources

    -- runLeave, with the state that was read, the node name that was asked for, and whether a client with
    -- the permissions was loaded
    unfoldable pub run_leave :
        Option LocalState → Text → Bool → List Call → Result LeaveError (Unit {0}) × List Call
    unfolding complete_state clean_up after_cleanup
    run_leave state wanted client h = elim (complete_state state) [
      | err e ↦ (err e, h)
      | ok s ↦
          if not (wanted == []) && not (wanted == s.node_name)
          then (err other_node, h)
          else if not client
          then (err no_client, h)
          else (let (errors, h') = clean_up h in after_cleanup errors h')
    ]
