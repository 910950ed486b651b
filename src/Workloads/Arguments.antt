-- ===== src/Workloads/Arguments.antt =====
-- The arguments of `macker run` (pkg/maclet/workload_mounts.go): runArgsWithContext and
-- hostNetworkRunArgs. The volume arguments and the environment come from functions of their own and are
-- arguments here, each with its error; so is the check of the Pod's network. `bridge_of` is the address
-- before the gateway.
pub mod Ports
pub mod Fixtures
use maclet.Prelude.{
  ℕ, suc, ◌+◌, ◌-◌, ◌%◌, ◌^◌, Bool, true, false, not, ◌||◌, ◌&&◌, Option, none, some, List, [], ◌∷◌,
  ◌++◌, ltb, leb, eqb, ◌==◌, text_eq_instance, if◌then◌else◌, Result, ok, err, ◌>>=◌, ◌>>◌,
}
use maclet.Prelude.Text.{Text, codes, itoa, to_lower}
use maclet.Go.Paths.{is_abs, clean}
use maclet.Go.Numbers.{ℤ, pos, negsuc}
use maclet.Net.V4.{format_v4}
use maclet.Net.Cidr.{parse_ip, to4}
use maclet.Network.Handle.{Handle}

pub data ArgError : Type 0 where
  bad_network no_image relative_directory no_network host_port bad_port bad_protocol : ArgError
  bad_volumes bad_environment : ArgError

pub record Port : Type 0 where
  pub container_port : ℤ
  pub host_port : ℤ
  pub protocol : Text

pub record RunSpec : Type 0 where
  pub image : Text
  pub working_dir : Text
  pub ports : List Port
  pub command : List Text
  pub args : List Text

-- What the arguments are made from beside the container
pub record RunInputs : Type 0 where
  pub host_network : Bool
  pub network_is_valid : Bool
  pub disable_port_forward : Bool
  pub ip : Text
  pub container_name : Text
  pub volume_args : Result ArgError (List Text)
  pub environment : Result ArgError (List Text)

-- strings.ToUpper; `upper` is the table of the runes above ASCII.
unfoldable pub to_upper : (ℕ → ℕ) → Text → Text
to_upper upper [] = []
to_upper upper (c ∷ s) =
    (if ltb c 128 then (if leb b'a' c && leb c b'z' then c - 32 else c) else upper c)
    ∷ to_upper upper s

abbrev pub is_zero : ℤ → Bool
is_zero (pos n) = eqb n 0
is_zero (negsuc n) = false

-- A port from 1 to 65535
unfoldable pub port_number : ℤ → Result ArgError ℕ
port_number (pos n) = if ltb n 1 || ltb 65535 n then err bad_port else ok n
port_number (negsuc n) = err bad_port

-- The gateway's address less one in its last byte, which wraps around
unfoldable pub bridge_of : Text → Text
unfolding parse_ip to4 format_v4
bridge_of gateway = elim (parse_ip gateway) [
  | none ↦ gateway
  | some n ↦ elim (to4 n) [
    | none ↦ gateway
    | some v ↦ format_v4 (v - v % 256 + (v % 256 + 255) % 256)
  ]
]

unfoldable pub working_directory : Text → Result ArgError (List Text)
unfolding is_abs clean
working_directory d =
    if d == []
    then ok []
    else if is_abs d
    then ok (codes "--workdir" ∷ clean d ∷ [])
    else err relative_directory

abbrev pub environment_args : List Text → List Text
environment_args [] = []
environment_args (v ∷ vs) = codes "--env" ∷ v ∷ environment_args vs

module _ (upper : ℕ → ℕ) where
  unfoldable pub protocol_of : Text → Result ArgError Text
  unfolding to_upper
  protocol_of p =
      let u = to_upper upper p in
      if u == [] || u == codes "TCP"
      then ok (codes "tcp")
      else if u == codes "UDP"
      then ok (codes "udp")
      else err bad_protocol

  abbrev pub forward_args : ℕ → Text → List Text
  forward_args port protocol = codes "-p" ∷ (itoa port ++ codes ":auto/" ++ protocol) ∷ []

  abbrev pub direct_args : ℕ → ℕ → List Text
  direct_args index port =
      codes "--env" ∷ (codes "MACKER_PORT_" ++ itoa index ++ codes "=" ++ itoa port) ∷ []

  unfoldable pub port_args : Bool → ℕ → Port → Result ArgError (List Text)
  unfolding port_number protocol_of itoa
  port_args forward index p =
      if not (is_zero p.host_port)
      then err host_port
      else port_number p.container_port >>= λ number. protocol_of p.protocol >>= λ protocol.
          ok (if forward then forward_args number protocol else direct_args index number)

  -- The loop over the ports, with the index of the first of them, from 1
  unfoldable pub all_port_args : Bool → ℕ → List Port → Result ArgError (List Text)
  unfolding port_args
  all_port_args forward index [] = ok []
  all_port_args forward index (p ∷ ps) = port_args forward index p >>= λ first.
      all_port_args forward (suc index) ps >>= λ rest. ok (first ++ rest)

  abbrev pub entrypoint_of : List Text → List Text
  entrypoint_of [] = []
  entrypoint_of (c ∷ cs) = codes "--entrypoint" ∷ c ∷ []

  abbrev pub rest_of : List Text → List Text
  rest_of [] = []
  rest_of (c ∷ cs) = cs

  abbrev pub override_of : List Text → List Text
  override_of [] = []
  override_of (a ∷ rest) = codes "--" ∷ a ∷ rest

  -- The entrypoint, the image, and what follows the image
  unfoldable pub command_args : RunSpec → List Text
  command_args c = entrypoint_of c.command ++ c.image ∷ override_of (rest_of c.command ++ c.args)

  abbrev pub network_of : Option Handle → Result ArgError Handle
  network_of none = err no_network
  network_of (some h) = if h.interface == [] || h.gateway == [] then err no_network else ok h

  abbrev pub external_args : Handle → RunInputs → List Text
  external_args h i =
      codes "run"
      ∷ codes "--detach"
      ∷ codes "--net=external"
      ∷ codes "--interface"
      ∷ h.interface
      ∷ codes "--ip"
      ∷ i.ip
      ∷ codes "--host-interface"
      ∷ h.interface
      ∷ codes "--host-ip"
      ∷ bridge_of h.gateway
      ∷ codes "--name"
      ∷ i.container_name
      ∷ []

  abbrev pub host_args : RunInputs → List Text
  host_args i =
      codes "run" ∷ codes "--detach" ∷ codes "--net=host" ∷ codes "--name" ∷ i.container_name ∷ []

  unfoldable pub host_network_run_args : RunInputs → RunSpec → Result ArgError (List Text)
  unfolding working_directory all_port_args command_args
  host_network_run_args i c = if c.image == [] then err no_image else (do
    directory ← working_directory c.working_dir
    volumes ← i.volume_args
    environment ← i.environment
    ports ← all_port_args (not i.disable_port_forward) 1 c.ports
    ok (
        host_args i
        ++ directory
        ++ volumes
        ++ environment_args environment
        ++ ports
        ++ command_args c))

  unfoldable pub external_run_args :
      Option Handle → RunInputs → RunSpec → Result ArgError (List Text)
  unfolding working_directory bridge_of all_port_args command_args
  external_run_args network i c = if c.image == [] then err no_image else (do
    directory ← working_directory c.working_dir
    volumes ← i.volume_args
    h ← network_of network
    environment ← i.environment
    ports ← all_port_args (not i.disable_port_forward) 1 c.ports
    ok (
        external_args h i
        ++ volumes
        ++ directory
        ++ environment_args environment
        ++ ports
        ++ command_args c))

  unfoldable pub run_args : Option Handle → RunInputs → RunSpec → Result ArgError (List Text)
  unfolding host_network_run_args external_run_args
  run_args network i c =
      if not i.network_is_valid
      then err bad_network
      else if i.host_network
      then host_network_run_args i c
      else external_run_args network i c
