-- ===== src/Vxlan.antt =====
-- The VXLAN child process (pkg/maclet/vxlan.go, vxlan_recovery.go): the arguments it is started with, and
-- how the processes of an earlier run are told from others.
pub mod Lines
pub mod Flags
pub mod Recognised
pub mod Interfaces
pub mod Recovery
mod Tests
use maclet.Prelude.{
  ℕ, zero, suc, Bool, true, false, not, ◌||◌, ◌&&◌, Option, none, some, List, [], ◌∷◌, ◌++◌, ◌==◌,
  text_eq_instance, ltb, if◌then◌else◌, Result, ok, err,
}
use maclet.Prelude.Text.{Text, codes, fields, join, split}
use maclet.Go.Numbers.{ℤ, pos, negsuc, atoi, format_int}
use maclet.Go.Paths.{base}
use maclet.Net.Cidr.{parse_cidr}
use maclet.Network.Addresses.{NetError, bridge_address_for_cidr}

pub record VxlanConfig : Type 0 where
  pub binary : Text
  pub remote : Text
  pub local : Text
  pub node_ip : Text
  pub port : ℤ
  pub mtu : ℤ
  pub service_cidr : Text
  pub use_sudo : Bool

pub record Peer : Type 0 where
  pub pod_cidr : Text
  pub public_ip : Text

-- matchingVXLANProcess
pub record Process : Type 0 where
  pub pid : ℕ
  pub command : Text
  pub bridge_cidr : Text
  pub wrapper : Bool

-- What a tunnel is started for: its bridge and the local address
pub record Tunnel : Type 0 where
  pub bridge_cidr : Text
  pub local : Text

pub data TunnelError : Type 0 where
  no_remote no_pod_cidr bad_pod_cidr no_local : TunnelError

abbrev pub first_or_empty : List Text → Text
first_or_empty [] = []
first_or_empty (c ∷ cs) = c

abbrev pub tunnel_on : Text → Result NetError Text → Result TunnelError (Option Tunnel)
tunnel_on local (err e) = err bad_pod_cidr
tunnel_on local (ok bridge) =
    if local == [] then err no_local else ok (some record { bridge_cidr = bridge; local = local })

-- The checks of startVXLAN; without a program there is no tunnel.
unfoldable pub tunnel_of : VxlanConfig → Text → List Text → Result TunnelError (Option Tunnel)
unfolding bridge_address_for_cidr
tunnel_of cfg pod_cidr pod_cidrs =
    let cidr = if pod_cidr == [] then first_or_empty pod_cidrs else pod_cidr in
    let local = if cfg.local == [] then cfg.node_ip else cfg.local in
    if cfg.binary == []
    then ok none
    else if cfg.remote == []
    then err no_remote
    else if cidr == []
    then err no_pod_cidr
    else tunnel_on local (bridge_address_for_cidr cidr)

abbrev pub peer_arguments : List Peer → List Text
peer_arguments [] = []
peer_arguments (p ∷ ps) = codes "--peer" ∷ (p.pod_cidr ++ b'=' ∷ p.public_ip) ∷ peer_arguments ps

-- The arguments that startVXLAN puts together
unfoldable pub vxlan_arguments : VxlanConfig → Text → Text → List Peer → List Text
unfolding format_int
vxlan_arguments cfg local bridge_cidr peers =
    codes "--vni"
    ∷ codes "1"
    ∷ codes "--local"
    ∷ local
    ∷ codes "--remote"
    ∷ cfg.remote
    ∷ codes "--port"
    ∷ format_int cfg.port
    ∷ codes "--mtu"
    ∷ format_int cfg.mtu
    ∷ codes "--bridge-ipv4"
    ∷ bridge_cidr
    ∷ (peer_arguments peers ++ codes "--peer" ∷ (cfg.service_cidr ++ b'=' ∷ cfg.remote) ∷ [])

-- The command line, with sudo or without
unfoldable pub command_line : VxlanConfig → List Text → List Text
command_line cfg arguments =
    if cfg.use_sudo
    then codes "sudo" ∷ codes "-n" ∷ cfg.binary ∷ arguments
    else cfg.binary ∷ arguments

-- flagValue
unfoldable pub flag_value : List Text → Text → Text
flag_value [] flag = []
flag_value (f ∷ []) flag = []
flag_value (f ∷ v ∷ rest) flag =
    let later = flag_value (v ∷ rest) flag in if f == flag then v else later

-- The loop that looks for the program
unfoldable pub has_binary : Text → List Text → Bool
unfolding base
has_binary binary [] = false
has_binary binary (f ∷ fs) =
    (f == binary || base binary == codes "darwin-vxlan" && base f == base binary)
    || has_binary binary fs

unfoldable pub is_cidr : Text → Bool
unfolding parse_cidr
is_cidr s = elim (parse_cidr s) [ none ↦ false | some n ↦ true ]

unfoldable pub matching_invocation : Text → Text → Text → ℤ → Text → Option Text
unfolding fields has_binary flag_value format_int is_cidr
matching_invocation binary local remote port command =
    let words = fields command in
    let bridge = flag_value words (codes "--bridge-ipv4") in
    if not (has_binary binary words)
    then none
    else if not (flag_value words (codes "--vni") == codes "1")
        || not (flag_value words (codes "--local") == local)
        || not (flag_value words (codes "--remote") == remote)
        || not (flag_value words (codes "--port") == format_int port)
    then none
    else if bridge == []
    then none
    else if is_cidr bridge
    then some bridge
    else none

-- A number above zero
abbrev pub positive : Option ℤ → Option ℕ
positive none = none
positive (some (pos n)) = if ltb 0 n then some n else none
positive (some (negsuc n)) = none

abbrev pub process_of : ℕ → Text → Text → Option Text → Option Process
process_of pid first command none = none
process_of pid first command (some bridge) =
    some
      record { pid = pid; command = command; bridge_cidr = bridge; wrapper = first == codes "sudo" }

-- One line of ps
unfoldable pub process_in : Text → Text → Text → ℤ → List Text → Option Process
unfolding atoi join matching_invocation
process_in binary local remote port (number ∷ first ∷ rest) =
    let command = join (codes " ") (first ∷ rest) in
    elim (positive (atoi number)) [
      | none ↦ none
      | some pid ↦
          process_of pid first command (matching_invocation binary local remote port command)
    ]
process_in binary local remote port (number ∷ []) = none
process_in binary local remote port [] = none

abbrev pub keep_found : Option Process → List Process → List Process
keep_found none ps = ps
keep_found (some p) ps = p ∷ ps

unfoldable pub processes_in : Text → Text → Text → ℤ → List Text → List Process
unfolding fields process_in
processes_in binary local remote port [] = []
processes_in binary local remote port (line ∷ lines) =
    keep_found (process_in binary local remote port (fields line))
      (processes_in binary local remote port lines)

-- findMatchingVXLANProcesses, from the output of ps
unfoldable pub matching_processes : Text → Text → Text → ℤ → Text → List Process
unfolding split processes_in
matching_processes binary local remote port output =
    processes_in binary local remote port (split 10 output)
