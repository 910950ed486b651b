-- ===== src/Network/Aliases.antt =====
-- The addresses of the workloads on the bridge: addWorkloadIP, removeWorkloadIP and the alias part of
-- cleanup (pkg/maclet/darwin_network.go). The host is an oracle: what it answers may depend on all
-- calls made so far, which are kept newest first.
pub mod Bookkeeping
pub mod Distinct
use maclet.Prelude.{
  ℕ, zero, suc, ◌+◌, Bool, true, false, not, ◌||◌, Option, none, some, List, [], ◌∷◌, ◌++◌, eqb,
  ◌==◌, text_eq_instance, contains, get_elem?, if◌then◌else◌, Result, ok, err, or_err,
}
use maclet.Prelude.Exec.{Exec, pure, fail, lift, gets, attempt, ◌>>=◌, ◌>>◌}
use maclet.Prelude.Text.{Text, codes}
use maclet.Net.V4.{format_v4}
use maclet.Net.Cidr.{parse_cidr, parse_ip, to4}
use maclet.Network.Addresses.{
  NetError, not_ipv4_address, inspect_failed, present_elsewhere, alias_failed, unalias_failed,
}
use maclet.Network.Handle.{
  Handle, Call, list_interfaces, add_alias, remove_alias, Reply, failed, done, table, check_address,
  drop_alias,
}

pub record World : Type 0 where
  pub handle : Handle
  pub calls : List Call

abbrev pub Net : Type 0 → Type 0
Net A = Exec NetError World A

any_equal : ℕ → List ℕ → Bool
any_equal ip [] = false
any_equal ip (a ∷ as') = eqb a ip || any_equal ip as'

-- The loop of interfaceForAddress; the empty text is "no interface".
interface_of : ℕ → List (Text × Option (List ℕ)) → Text
interface_of ip [] = []
interface_of ip ((name, none) ∷ rest) = interface_of ip rest
interface_of ip ((name, some addrs) ∷ rest) =
    if any_equal ip addrs then name else interface_of ip rest

module _ (host : List Call → Call → Reply) where
  ask : Call → Net Reply
  ask c w = (ok (host w.calls c), record w { calls = c ∷ w.calls })

  push_alias : Text → Net (Unit {0})
  push_alias ip w =
      (ok tt, record w { handle = record w.handle { aliases = w.handle.aliases ++ ip ∷ [] } })

  -- interfaceForAddress of an IPv4 address with /32
  interface_for_address : Text → Net Text
  interface_for_address ip w = elim (parse_cidr (ip ++ codes "/32")) [
    | none ↦ (err inspect_failed, w)
    | some _ ↦ elim (parse_ip ip) [
      | none ↦ (err inspect_failed, w)
      | some a ↦ elim (host w.calls list_interfaces) [
        | table t ↦ (ok (interface_of a t), record w { calls = list_interfaces ∷ w.calls })
        | _ ↦ (err inspect_failed, record w { calls = list_interfaces ∷ w.calls })
      ]
    ]
  ]

  -- What addWorkloadIP does when ifconfig failed: the alias may have appeared in a race.
  adopt_after_race : Text → Result NetError Text → Net (Unit {0})
  adopt_after_race ip (err e) w = (err alias_failed, w)
  adopt_after_race ip (ok found) w =
      if found == w.handle.interface then push_alias ip w else (err alias_failed, w)

  after_alias : Text → Reply → Net (Unit {0})
  after_alias ip done = push_alias ip
  after_alias ip failed = attempt (interface_for_address ip) >>= adopt_after_race ip
  after_alias ip (table t) = push_alias ip

  place_alias : Text → Text → Net (Unit {0})
  place_alias ip found w =
      if not (found == [])
      then (if found == w.handle.interface then push_alias ip w else (err present_elsewhere, w))
      else (ask (add_alias w.handle.interface ip) >>= after_alias ip) w

  pub add_workload_ip : Text → Net (Unit {0})
  unfolding ask interface_of any_equal push_alias interface_for_address adopt_after_race after_alias
      place_alias
  add_workload_ip ip = do
    h ← gets (λ w. w.handle)
    canonical ← lift (check_address h ip)
    if contains h.aliases canonical
        then pure tt
        else interface_for_address canonical >>= place_alias canonical

  after_removal : Text → Reply → Net (Unit {0})
  after_removal ip failed w = (err unalias_failed, w)
  after_removal ip done w =
      (ok tt, record w { handle = record w.handle { aliases = drop_alias ip w.handle.aliases } })
  after_removal ip (table t) w =
      (ok tt, record w { handle = record w.handle { aliases = drop_alias ip w.handle.aliases } })

  remove_canonical : Text → Net (Unit {0})
  remove_canonical ip w =
      if contains w.handle.aliases ip
      then (ask (remove_alias w.handle.interface ip) >>= after_removal ip) w
      else (ok tt, w)

  pub remove_workload_ip : Text → Net (Unit {0})
  unfolding ask after_removal remove_canonical
  remove_workload_ip ip = do
    parsed ← lift (or_err (parse_ip ip) not_ipv4_address)
    v4 ← lift (or_err (to4 parsed) not_ipv4_address)
    remove_canonical (format_v4 v4)

  -- cleanup: the number of errors that it joins.
  pub cleanup_aliases : ℕ → ℕ → World → ℕ × World
  cleanup_aliases zero errors w = (errors, w)
  cleanup_aliases (suc i) errors w = elim (get_elem? w.handle.aliases i) [
    | none ↦ cleanup_aliases i errors w
    | some a ↦
        let (r, w') = remove_workload_ip a w in
        elim r [ ok _ ↦ cleanup_aliases i errors w' | err _ ↦ cleanup_aliases i (errors + 1) w' ]
  ]
