-- ===== src/Vxlan/Recovery.antt =====
-- How state of an earlier tunnel is removed before a new one starts (pkg/maclet/vxlan_recovery.go, the
-- start in vxlan.go, and the process and interface functions of network_platform.go). What the system
-- answers may depend on all calls made so far, newest first. Go goes through its map of interfaces in
-- any order; here it is the order in which they were found.
pub mod Careful
pub mod Safety
pub mod Gone
pub mod Depth
use maclet.Prelude.{
  ℕ, zero, suc, Bool, true, false, not, ◌||◌, ◌&&◌, Option, none, some, List, [], ◌∷◌, ◌++◌, ◌==◌,
  text_eq_instance, eqb, if◌then◌else◌, Result, ok, err, or_err,
}
use maclet.Prelude.Exec.{Exec, pure, fail, lift, gets, attempt}
use maclet.Prelude.Exec.Bind.{◌>>=◌, ◌>>◌}
use maclet.Prelude.Text.{Text, codes, fields, cut, has_prefix}
use maclet.Go.Numbers.{atoi}
use maclet.Net.V4.{format_v4}
use maclet.Net.Cidr.{Network, parse_ip, parse_cidr, mapped, to4, network_contains}
use maclet.Vxlan.{VxlanConfig, Process, positive, matching_processes}
use mathlib.Core.List.{reverse}
use maclet.Vxlan.Interfaces.{
  Interface, Signal, list_children, find_interface, signal, remove_address, start, Found, has,
  VxlanError, Io, System, Claims, claim, is_bridge_interface, child_numbers, children_in,
  interface_with, all_networks, any_contains, is_nil, cidr_address, interrupt, kill, list_processes,
  list_interfaces, pause, no_interface, not_found, not_listed, not_inspected, not_a_bridge,
  still_running, not_removed, address_remains, too_deep, not_started,
}

module _ (system : System) where
  unfoldable pub interfaces_now : Io (List Interface)
  interfaces_now h = (or_err (system.interfaces h) not_inspected, list_interfaces ∷ h)

  unfoldable pub interface_for_address : Text → Io Text
  unfolding cidr_address interfaces_now interface_with
  interface_for_address cidr =
      lift (cidr_address cidr) >>= λ ip. interfaces_now >>= λ is. pure (interface_with ip is)

  -- A signal whose result is not looked at
  unfoldable pub send_signal : Signal → ℕ → Io (Unit {0})
  send_signal s pid h = (ok tt, signal s pid ∷ h)

  unfoldable pub children_now : ℕ → Io (List ℕ)
  unfolding fields child_numbers
  children_now pid h = (ok (children_in (system.children h pid)), list_children pid ∷ h)

  unfoldable pub collect : (ℕ → Io (List ℕ)) → List ℕ → Io (List ℕ)
  collect below [] = pure []
  collect below (c ∷ cs) =
      below c >>= λ first. collect below cs >>= λ rest. pure (first ++ c ∷ rest)

  -- processDescendants, to a depth
  unfoldable pub process_descendants : ℕ → ℕ → Io (List ℕ)
  unfolding children_now collect
  process_descendants zero pid = fail too_deep
  process_descendants (suc depth) pid = children_now pid >>= collect (process_descendants depth)

  unfoldable pub signal_all : Signal → List ℕ → Io (Unit {0})
  unfolding send_signal
  signal_all s [] = pure tt
  signal_all s (pid ∷ pids) = send_signal s pid >> signal_all s pids

  unfoldable pub signal_process_tree : ℕ → ℕ → Signal → Io (Unit {0})
  unfolding process_descendants signal_all
  signal_process_tree depth pid s =
      process_descendants depth pid >>= λ below. signal_all s (reverse below) >> send_signal s pid

  module _ (cfg : VxlanConfig) (depth : ℕ) (local : Text) where
    abbrev pub listed : Option Text → Result VxlanError (List Process)
    listed none = err not_listed
    listed (some output) = ok (matching_processes cfg.binary local cfg.remote cfg.port output)

    unfoldable pub find_matching_processes : Io (List Process)
    unfolding matching_processes
    find_matching_processes h = (listed (system.processes h), list_processes ∷ h)

    unfoldable pub interrupt_process : Process → Io (Unit {0})
    unfolding signal_process_tree send_signal
    interrupt_process p =
        if p.wrapper then signal_process_tree depth p.pid interrupt else send_signal interrupt p.pid

    unfoldable pub interrupt_all : List Process → Io (Unit {0})
    unfolding interrupt_process
    interrupt_all [] = pure tt
    interrupt_all (p ∷ ps) = interrupt_process p >> interrupt_all ps

    unfoldable pub kill_all : List Process → Io (Unit {0})
    unfolding send_signal
    kill_all [] = pure tt
    kill_all (p ∷ ps) = send_signal kill p.pid >> kill_all ps

    unfoldable pub wait_a_moment : Io (Unit {0})
    wait_a_moment h = (ok tt, pause ∷ h)

    -- The loop that waits, with the number of looks that fit before the deadline
    unfoldable pub wait_until_gone : ℕ → Io (Unit {0})
    unfolding find_matching_processes kill_all wait_a_moment
    wait_until_gone zero = find_matching_processes >>= λ remaining.
        if is_nil remaining then pure tt else (kill_all remaining >> fail still_running)
    wait_until_gone (suc looks) =
        let again = wait_a_moment >> wait_until_gone looks in
        find_matching_processes >>= λ remaining. if is_nil remaining then pure tt else again

    unfoldable pub terminate_matching_processes : ℕ → List Process → Io (Unit {0})
    unfolding interrupt_all wait_until_gone
    terminate_matching_processes looks ps = interrupt_all ps >> wait_until_gone looks

    -- What the addresses of earlier tunnels stand on: a bridge, or nothing
    unfoldable pub claim_interface : Text → Text → Claims → Io Claims
    unfolding is_bridge_interface claim
    claim_interface cidr name claims =
        if name == []
        then pure claims
        else if not (is_bridge_interface name)
        then fail not_a_bridge
        else pure (claim name cidr claims)

    unfoldable pub claim_address : Text → Claims → Io Claims
    unfolding interface_for_address claim_interface
    claim_address cidr claims =
        interface_for_address cidr >>= λ name. claim_interface cidr name claims

    -- The loop over the processes
    unfoldable pub claim_all : List Process → Claims → Io Claims
    unfolding claim_address
    claim_all [] claims = pure claims
    claim_all (p ∷ ps) claims =
        let next = claim_address p.bridge_cidr claims >>= claim_all ps in
        if p.bridge_cidr == [] then claim_all ps claims else next

    unfoldable pub remove_one : Text → ℕ → Io (Unit {0})
    unfolding format_v4
    remove_one name v h =
        let c = remove_address name (format_v4 v) in
        (if system.works h c then ok tt else err not_removed, c ∷ h)

    abbrev pub ipv4_of : Option ℕ → Option ℕ
    ipv4_of none = none
    ipv4_of (some a) = to4 a

    unfoldable pub remove_if_owned : Text → List Network → Option ℕ → Io (Unit {0})
    unfolding any_contains remove_one
    remove_if_owned name nets none = pure tt
    remove_if_owned name nets (some v) =
        if any_contains nets (mapped v) then remove_one name v else pure tt

    -- The loop over the addresses of an interface
    unfoldable pub remove_owned : Text → List Network → List (Option ℕ) → Io (Unit {0})
    unfolding remove_if_owned to4
    remove_owned name nets [] = pure tt
    remove_owned name nets (a ∷ ips) =
        remove_if_owned name nets (ipv4_of a) >> remove_owned name nets ips

    unfoldable pub interface_now : Text → Io Found
    interface_now name h = (ok (system.interface h name), find_interface name ∷ h)

    abbrev pub remove_found : Text → List Network → Found → Io (Unit {0})
    remove_found name nets (has ips) = remove_owned name nets ips
    remove_found name nets no_interface = pure tt
    remove_found name nets not_found = fail not_inspected

    -- removeIPv4AddressesInCIDRs
    unfoldable pub remove_addresses_in : Text → List Text → Io (Unit {0})
    unfolding all_networks interface_now remove_owned
    remove_addresses_in name cidrs =
        lift (all_networks cidrs) >>= λ nets. interface_now name >>= remove_found name nets

    unfoldable pub remove_claims : Claims → Io (Unit {0})
    unfolding remove_addresses_in
    remove_claims [] = pure tt
    remove_claims ((name, cidrs) ∷ claims) = remove_addresses_in name cidrs >> remove_claims claims

    unfoldable pub check_gone : Text → Io Bool
    unfolding interface_for_address
    check_gone bridge = interface_for_address bridge >>= λ name.
        if name == [] then pure true else fail address_remains

    unfoldable pub remove_stale : ℕ → Text → List Process → Claims → Io Bool
    unfolding terminate_matching_processes remove_claims check_gone
    remove_stale looks bridge ps claims =
        if is_nil ps && is_nil claims
        then pure false
        else ((if is_nil ps then pure tt else terminate_matching_processes looks ps)
            >> (remove_claims claims >> check_gone bridge))

    -- recoverStaleVXLAN; the value tells whether there was something to remove.
    unfoldable pub recover_stale_vxlan : ℕ → Text → Io Bool
    unfolding find_matching_processes claim_address claim_all remove_stale
    recover_stale_vxlan looks bridge = find_matching_processes >>= λ ps.
        claim_address bridge [] >>= λ first.
        claim_all ps first >>= λ claims. remove_stale looks bridge ps claims

    unfoldable pub start_process : List Text → Io (Unit {0})
    start_process line h =
        (if system.works h (start line) then ok tt else err not_started, start line ∷ h)

    -- The loop of startVXLAN: a start that fails is tried once more if something was removed then.
    unfoldable pub start_again : ℕ → Text → List Text → Result VxlanError (Unit {0}) → Io (Unit {0})
    unfolding recover_stale_vxlan start_process
    start_again looks bridge line (ok u) = pure u
    start_again looks bridge line (err e) = recover_stale_vxlan looks bridge >>= λ recovered.
        if recovered then start_process line else fail not_started

    unfoldable pub launch_vxlan : ℕ → Text → List Text → Io (Unit {0})
    unfolding recover_stale_vxlan start_process start_again
    launch_vxlan looks bridge line =
        recover_stale_vxlan looks bridge
        >> (attempt (start_process line) >>= start_again looks bridge line)
