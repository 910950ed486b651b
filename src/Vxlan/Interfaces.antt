-- ===== src/Vxlan/Interfaces.antt =====
-- Interfaces, networks and calls of the removal of stale tunnels (pkg/maclet/vxlan_recovery.go,
-- network_platform.go), as far as they are no steps.
use maclet.Prelude.{
  ℕ, Bool, true, false, ◌||◌, Option, none, some, List, [], ◌∷◌, ◌++◌, ◌==◌, text_eq_instance, eqb,
  if◌then◌else◌, Result, ok, err, or_err,
}
use maclet.Prelude.Exec.{Exec}
use maclet.Prelude.Text.{Text, codes, fields, cut, has_prefix}
use maclet.Go.Numbers.{atoi}
use maclet.Net.Cidr.{Network, parse_ip, parse_cidr, network_contains}
use maclet.Vxlan.{positive}

-- The addresses are none where they cannot be read; one that is no IP address is none too.
pub record Interface : Type 0 where
  pub name : Text
  pub addresses : Option (List (Option ℕ))

pub data Signal : Type 0 where
  interrupt kill : Signal

pub data Call : Type 0 where
  list_processes list_interfaces pause : Call
  list_children : ℕ → Call
  find_interface : Text → Call
  signal : Signal → ℕ → Call
  remove_address : Text → Text → Call
  start : List Text → Call

-- net.InterfaceByName and the addresses of what it found
pub data Found : Type 0 where
  has : List (Option ℕ) → Found
  no_interface not_found : Found

pub data VxlanError : Type 0 where
  not_listed bad_cidr not_inspected not_a_bridge still_running not_removed address_remains :
      VxlanError
  too_deep not_started : VxlanError

abbrev pub Io : Type 0 → Type 0
Io A = Exec VxlanError (List Call) A

-- `children` is the output of pgrep, none where it fails.
pub record System : Type 0 where
  pub processes : List Call → Option Text
  pub children : List Call → ℕ → Option Text
  pub interfaces : List Call → Option (List Interface)
  pub interface : List Call → Text → Found
  pub works : List Call → Call → Bool

-- Interfaces with the networks of an earlier tunnel
abbrev pub Claims : Type 0
Claims = List (Text × List Text)

unfoldable pub claim : Text → Text → Claims → Claims
claim name cidr [] = (name, cidr ∷ []) ∷ []
claim name cidr ((n, cidrs) ∷ claims) =
    let rest = claim name cidr claims in
    if n == name then (n, cidrs ++ cidr ∷ []) ∷ claims else (n, cidrs) ∷ rest

unfoldable pub is_bridge_interface : Text → Bool
unfolding has_prefix
is_bridge_interface name = has_prefix name (codes "bridge")

unfoldable pub child_numbers : List Text → List ℕ
unfolding atoi
child_numbers [] = []
child_numbers (f ∷ fs) = elim (positive (atoi f)) [
  | none ↦ child_numbers fs
  | some n ↦ n ∷ child_numbers fs
]

abbrev pub children_in : Option Text → List ℕ
children_in none = []
children_in (some output) = child_numbers (fields output)

unfoldable pub has_address : ℕ → List (Option ℕ) → Bool
has_address ip [] = false
has_address ip (none ∷ ips) = has_address ip ips
has_address ip (some a ∷ ips) = eqb a ip || has_address ip ips

unfoldable pub interface_with : ℕ → List Interface → Text
unfolding has_address
interface_with ip [] = []
interface_with ip (i ∷ is) =
    let rest = interface_with ip is in
    elim i.addresses [ none ↦ rest | some ips ↦ if has_address ip ips then i.name else rest ]

abbrev pub add_network :
    Option Network → Result VxlanError (List Network) → Result VxlanError (List Network)
add_network none r = err bad_cidr
add_network (some n) (ok ns) = ok (n ∷ ns)
add_network (some n) (err e) = err e

unfoldable pub all_networks : List Text → Result VxlanError (List Network)
unfolding parse_cidr
all_networks [] = ok []
all_networks (c ∷ cs) = add_network (parse_cidr c) (all_networks cs)

unfoldable pub any_contains : List Network → ℕ → Bool
unfolding network_contains
any_contains [] ip = false
any_contains (n ∷ ns) ip = network_contains n ip || any_contains ns ip

abbrev pub is_nil : {A : Type 0} → List A → Bool
is_nil [] = true
is_nil (x ∷ xs) = false

-- The IP address of a text that ParseCIDR takes
unfoldable pub cidr_address : Text → Result VxlanError ℕ
unfolding parse_cidr parse_ip cut
cidr_address cidr = elim (parse_cidr cidr) [
  | none ↦ err not_inspected
  | some n ↦ or_err (parse_ip (cut b'/' cidr).0) not_inspected
]
