-- ===== src/Vxlan/Tests.antt =====
-- A host with a stale tunnel (pkg/maclet/vxlan.go, vxlan_recovery.go).
use maclet.Prelude.Exec.Bind.{◌>>=◌}
use maclet.Prelude.{
  ℕ, subst, ◌<◌, Option, eqb, IsIn, Bool-cases, inl, inr, if◌then◌else◌, ◌≡◌, refl, Bool, true,
  false, none, some, List, [], ◌∷◌, ◌++◌, arith, ok,
}
use maclet.Prelude.Text.{Text, codes, fields, split, contains_char, cut, is_space, has_prefix}
use maclet.Prelude.Exec.Triples.{Holds}
use maclet.Go.Numbers.{pos, atoi}
use maclet.Net.V4.{parse_v4}
use maclet.Net.Cidr.{parse_ip, parse_cidr}
use maclet.Vxlan.{
  VxlanConfig, vxlan_arguments, command_line, matching_processes, processes_in, is_cidr,
}
use maclet.Vxlan.Recognised.{IsUsual, started_process, matching_processes-started}
use maclet.Vxlan.Recovery.{process_descendants, recover_stale_vxlan, launch_vxlan}
use maclet.Vxlan.Interfaces.{
  Interface, Call, list_children, find_interface, signal, remove_address, start, has, System,
  list_processes, list_interfaces, pause, children_in, child_numbers,
}
use maclet.Vxlan.Recovery.Safety.{IsCareful, launch_vxlan-IsCareful}
use maclet.Vxlan.Recovery.Gone.{IsGone, recover_stale_vxlan-IsGone}
use maclet.Vxlan.Recovery.Depth.{Returns, AreAll, IsUnder, process_descendants-AreAll}

abbrev cfg : VxlanConfig
cfg = record {
  binary = codes "/opt/darwin-vxlan";
  remote = codes "192.0.2.1";
  local = [];
  node_ip = codes "192.0.2.2";
  port = pos 8472;
  mtu = pos 1450;
  service_cidr = codes "10.43.0.0/16";
  use_sudo = true;
}

abbrev near : Text
near = codes "192.0.2.2"

abbrev bridge : Text
bridge = codes "10.42.3.1/24"

abbrev line : List Text
line =
    codes "sudo"
    ∷ codes "-n"
    ∷ codes "/opt/darwin-vxlan"
    ∷ codes "--vni"
    ∷ codes "1"
    ∷ codes "--local"
    ∷ codes "192.0.2.2"
    ∷ codes "--remote"
    ∷ codes "192.0.2.1"
    ∷ codes "--port"
    ∷ codes "8472"
    ∷ codes "--mtu"
    ∷ codes "1450"
    ∷ codes "--bridge-ipv4"
    ∷ codes "10.42.3.1/24"
    ∷ codes "--peer"
    ∷ codes "10.43.0.0/16=192.0.2.1"
    ∷ []

same_line : command_line cfg (vxlan_arguments cfg near bridge []) ≡ line
unfolding command_line vxlan_arguments
same_line = refl

abbrev ps_output : Text
ps_output =
    codes
      "  1 /sbin/launchd\n 41 sudo -n /opt/darwin-vxlan --vni 1 --local 192.0.2.2 --remote 192.0.2.1 --port 8472 --mtu 1450 --bridge-ipv4 10.42.3.1/24 --peer 10.43.0.0/16=192.0.2.1\n"

-- The process shows until something was signalled, its bridge until an address was removed.
abbrev is_signalled : List Call → Bool
is_signalled [] = false
is_signalled (signal s n ∷ h) = true
is_signalled (list_processes ∷ h) = is_signalled h
is_signalled (list_interfaces ∷ h) = is_signalled h
is_signalled (pause ∷ h) = is_signalled h
is_signalled (list_children n ∷ h) = is_signalled h
is_signalled (find_interface n ∷ h) = is_signalled h
is_signalled (remove_address n a ∷ h) = is_signalled h
is_signalled (start l ∷ h) = is_signalled h

abbrev is_removed : List Call → Bool
is_removed [] = false
is_removed (remove_address n a ∷ h) = true
is_removed (signal s n ∷ h) = is_removed h
is_removed (list_processes ∷ h) = is_removed h
is_removed (list_interfaces ∷ h) = is_removed h
is_removed (pause ∷ h) = is_removed h
is_removed (list_children n ∷ h) = is_removed h
is_removed (find_interface n ∷ h) = is_removed h
is_removed (start l ∷ h) = is_removed h

abbrev shown_processes : Bool → Text
shown_processes true = codes "1 /sbin/launchd\n"
shown_processes false = ps_output

abbrev shown_interfaces : Bool → List Interface
shown_interfaces true = []
shown_interfaces false =
    record { name = codes "bridge100"; addresses = some (parse_ip (codes "10.42.3.1") ∷ []) } ∷ []

abbrev stale : System
stale = record {
  processes = λ h. some (shown_processes (is_signalled h));
  children = λ h n. none;
  interfaces = λ h. some (shown_interfaces (is_removed h));
  interface = λ h name. has (parse_ip (codes "10.42.3.1") ∷ none ∷ []);
  works = λ h c. true;
}

launch_vxlan-IsCareful_example :
    IsCareful stale cfg near bridge (launch_vxlan stale cfg 3 near 50 bridge line []).1
launch_vxlan-IsCareful_example = launch_vxlan-IsCareful stale cfg near bridge 3 50 line [] tt

recover_stale_vxlan-IsGone_example :
    Holds
      (λ b g. IsGone stale cfg 3 near bridge g)
      (recover_stale_vxlan stale cfg 3 near 50 bridge []).0
      (recover_stale_vxlan stale cfg 3 near 50 bridge []).1
recover_stale_vxlan-IsGone_example = recover_stale_vxlan-IsGone stale cfg 3 near bridge 50 []

recovered : (recover_stale_vxlan stale cfg 3 near 50 bridge []).0 ≡ ok true
unfolding recover_stale_vxlan ◌>>=◌ parse_ip parse_v4 contains_char
recovered = refl

-- sudo with the tunnel below it, and a helper below that
abbrev family : ℕ → List ℕ
family n = if eqb n 41 then 42 ∷ [] else if eqb n 42 then 43 ∷ 44 ∷ [] else []

abbrev shown_children : ℕ → Option Text
shown_children n =
    if eqb n 41 then some (codes "42\n") else if eqb n 42 then some (codes "43\n44\n") else none

abbrev busy : System
busy = record stale { children = λ h n. shown_children n }

abbrev generation : ℕ → ℕ
generation n = if eqb n 41 then 2 else if eqb n 42 then 1 else 0

busy_steady : (h : List Call) (n : ℕ) → children_in (busy.children h n) ≡ family n
unfolding child_numbers fields atoi
busy_steady h n = elim (Bool-cases (eqb n 41)) [
  | inl root ↦ rw root refl
  | inr other ↦ elim (Bool-cases (eqb n 42)) [
    | inl child ↦ rw (other, child) refl
    | inr leaf ↦ rw (other, leaf) refl
  ]
]

busy_ordered : (n c : ℕ) → IsIn c (family n) → generation c < generation n
busy_ordered n c i = elim (Bool-cases (eqb n 41)) [
  | inl root ↦ elim (rw root at i) [
    | inl e ↦ subst (λ x. generation x < generation n) e (rw root (omega arith))
    | inr end ↦ elim end [ ]
  ]
  | inr other ↦ elim (Bool-cases (eqb n 42)) [
    | inl child ↦ elim (rw (other, child) at i) [
      | inl e ↦ subst (λ x. generation x < generation n) e (rw (other, child) (omega arith))
      | inr more ↦ elim more [
        | inl e ↦ subst (λ x. generation x < generation n) e (rw (other, child) (omega arith))
        | inr end ↦ elim end [ ]
      ]
    ]
    | inr leaf ↦ absurd (rw (other, leaf) at i)
  ]
]

process_descendants-AreAll_example :
    Returns (AreAll (IsUnder family 41)) (process_descendants busy 3 41)
process_descendants-AreAll_example =
    process_descendants-AreAll busy family generation busy_steady busy_ordered 3 41 (omega arith)

descendants_run : (process_descendants busy 3 41 []).0 ≡ ok (43 ∷ 44 ∷ 42 ∷ [])
unfolding process_descendants ◌>>=◌ fields child_numbers atoi
descendants_run = refl

stale_tunnel-IsUsual : IsUsual cfg near bridge []
unfolding is_space has_prefix is_cidr parse_ip parse_v4 contains_char cut
stale_tunnel-IsUsual = record {
  program = ((refl, ground arith), refl);
  underlay = ((refl, ground arith), refl);
  far_end = ((refl, ground arith), refl);
  bridge_word = (refl, ground arith);
  bridge_parses = refl;
  service = ground arith;
  peer_texts = tt;
}

matching_processes-started_example :
    matching_processes cfg.binary near cfg.remote cfg.port ps_output
    ≡ processes_in cfg.binary near cfg.remote cfg.port (codes "  1 /sbin/launchd" ∷ [])
      ++ started_process cfg near bridge [] 41
        ∷ processes_in cfg.binary near cfg.remote cfg.port ([] ∷ [])
unfolding command_line vxlan_arguments atoi split fields parse_cidr parse_ip parse_v4 contains_char
matching_processes-started_example =
    matching_processes-started cfg near bridge [] stale_tunnel-IsUsual ps_output
      (codes
        " 41 sudo -n /opt/darwin-vxlan --vni 1 --local 192.0.2.2 --remote 192.0.2.1 --port 8472 --mtu 1450 --bridge-ipv4 10.42.3.1/24 --peer 10.43.0.0/16=192.0.2.1")
      (codes "41") (codes "  1 /sbin/launchd" ∷ []) ([] ∷ []) 41 refl refl refl
