-- ===== src/Vxlan/Recovery/Safety.antt =====
-- Recovery for a new tunnel is careful as a whole, and what it leaves (pkg/maclet/vxlan_recovery.go, and
-- the start in vxlan.go).
use maclet.Prelude.{
  ℕ, ◌≡◌, refl, inl, inr, true, false, not, ◌&&◌, Option, none, some, List, [], ◌∷◌, All,
  All-append, arith, ◌==◌, text_eq_instance, Result, ok, err, Bool-cases,
}
use maclet.Prelude.Exec.Keeps.{
  OnOk, OnOk-any, Ensures, Anything, Ensures-pure, Ensures-fail, Ensures-if, Ensures-bind,
  Ensures-next, Ensures-lift, Ensures-attempt,
}
use maclet.Prelude.Text.{Text, codes, has_prefix}
use maclet.Net.Cidr.{Network, parse_cidr, mapped, network_contains}
use maclet.Vxlan.{VxlanConfig, Process}
use maclet.Vxlan.Recovery.{
  interfaces_now, interface_for_address, terminate_matching_processes, claim_interface,
  claim_address, claim_all, remove_one, ipv4_of, remove_if_owned, remove_owned, interface_now,
  remove_found, remove_addresses_in, remove_claims, check_gone, remove_stale, recover_stale_vxlan,
  start_process, start_again, launch_vxlan,
}
use maclet.Vxlan.Interfaces.{
  Call, Found, has, VxlanError, System, Claims, claim, is_bridge_interface, cidr_address,
  interface_with, add_network, all_networks, any_contains, is_nil, no_interface, not_found,
  not_inspected, not_a_bridge, address_remains, not_started,
}
use maclet.Vxlan.Recovery.Careful.{
  IsMatching, IsStale, AllOurs, Ensures-find, Ensures-interrupt, Ensures-wait,
}

module _ (system : System) (cfg : VxlanConfig) (local bridge : Text) where
  abbrev Stale : Text → Type 0
  Stale = IsStale system cfg local bridge

  abbrev Matching : Process → Type 0
  Matching = IsMatching system cfg local bridge

  abbrev pub IsCareful : List Call → Type 0
  IsCareful = AllOurs system cfg local bridge

  abbrev IsClaim : Text × List Text → Type 0
  IsClaim (name, cidrs) = (has_prefix name (codes "bridge") ≡ true) × All Stale cidrs

  claim-IsClaim :
      (name cidr : Text) (claims : Claims)
      → has_prefix name (codes "bridge") ≡ true
      → Stale cidr
      → All IsClaim claims
      → All IsClaim (claim name cidr claims)
  unfolding claim
  claim-IsClaim name cidr [] b s all = ((b, (s, tt)), tt)
  claim-IsClaim name cidr ((n, cidrs) ∷ claims) b s all = elim (Bool-cases (n == name)) [
    | inl same ↦ rw same ((all.0.0, All-append Stale cidrs (cidr ∷ []) all.0.1 (s, tt)), all.1)
    | inr other ↦ rw other (all.0, claim-IsClaim name cidr claims b s all.1)
  ]

  abbrev IsNet : Network → Type 0
  IsNet net = (cidr : Text) × Stale cidr × (parse_cidr cidr ≡ some net)

  all_networks-IsNet : (cidrs : List Text) → All Stale cidrs → OnOk (All IsNet) (all_networks cidrs)
  unfolding all_networks
  all_networks-IsNet [] all = tt
  all_networks-IsNet (c ∷ cs) all =
      add (parse_cidr c) (all_networks cs) refl (all_networks-IsNet cs all.1)
    where
      add :
          (o : Option Network) (r : Result VxlanError (List Network))
          → parse_cidr c ≡ o
          → OnOk (All IsNet) r
          → OnOk (All IsNet) (add_network o r)
      add none r e q = tt
      add (some n) (ok ns) e q = ((c, all.0, e), q)
      add (some n) (err f) e q = tt

  any_contains-owned :
      (nets : List Network) (ip : ℕ)
      → All IsNet nets
      → any_contains nets ip ≡ true
      → (net : Network) × IsNet net × (network_contains net ip ≡ true)
  unfolding any_contains
  any_contains-owned [] ip all e = cc
  any_contains-owned (n ∷ ns) ip all e = elim (Bool-cases (network_contains n ip)) [
    | inl yes_in ↦ (n, all.0, yes_in)
    | inr out ↦ any_contains-owned ns ip all.1 (rw out at e)
  ]

  Ensures-lookup : (cidr : Text) → Ensures IsCareful Anything (interface_for_address system cidr)
  unfolding interface_for_address interfaces_now
  Ensures-lookup cidr = Ensures-bind (Ensures-lift (cidr_address cidr)) (λ ip u.
      Ensures-bind {Q = Anything}
        (record { at = λ h p. ((tt, p), OnOk-any (interfaces_now system h).0) })
        (λ is v. Ensures-pure (interface_with ip is) tt))

  module _ (depth looks : ℕ) where
    Ensures-claimed :
        (cidr : Text) (claims : Claims)
        → Stale cidr
        → All IsClaim claims
        → Ensures IsCareful (All IsClaim) (claim_address system cfg depth local cidr claims)
    unfolding claim_address claim_interface is_bridge_interface
    Ensures-claimed cidr claims s all = Ensures-bind (Ensures-lookup cidr) (λ name u.
        Ensures-if {b = name == []} (λ e. Ensures-pure claims all)
          (λ e.
            Ensures-if {b = not (has_prefix name (codes "bridge"))} (λ f. Ensures-fail not_a_bridge)
              (λ f.
                Ensures-pure (claim name cidr claims)
                  (claim-IsClaim name cidr claims (ground (arith, f)) s all))))

    Ensures-claim_all :
        (ps : List Process) (claims : Claims)
        → All Matching ps
        → All IsClaim claims
        → Ensures IsCareful (All IsClaim) (claim_all system cfg depth local ps claims)
    unfolding claim_all
    Ensures-claim_all [] claims m all = Ensures-pure claims all
    Ensures-claim_all (p ∷ ps) claims m all =
        Ensures-if {b = p.bridge_cidr == []} (λ e. Ensures-claim_all ps claims m.1 all)
          (λ e.
            Ensures-bind (Ensures-claimed p.bridge_cidr claims (inr (p, m.0, refl)) all)
              (λ more q. Ensures-claim_all ps more m.1 q))

    Ensures-remove_if_owned :
        (name : Text) (nets : List Network) (o : Option ℕ)
        → has_prefix name (codes "bridge") ≡ true
        → All IsNet nets
        → Ensures IsCareful Anything (remove_if_owned system cfg depth local name nets o)
    unfolding remove_if_owned remove_one
    Ensures-remove_if_owned name nets none b all = Ensures-pure tt tt
    Ensures-remove_if_owned name nets (some v) b all =
        Ensures-if {b = any_contains nets (mapped v)}
          (λ e.
            let (net, (cidr, stale, parsed), inside) = any_contains-owned nets (mapped v) all e in
            record {
              at = λ h p. (
                ((v, refl, (b, cidr, net, stale, parsed, inside)), p),
                OnOk-any (remove_one system cfg depth local name v h).0,
              );
            })
          (λ e. Ensures-pure tt tt)

    Ensures-remove_owned :
        (name : Text) (nets : List Network) (ips : List (Option ℕ))
        → has_prefix name (codes "bridge") ≡ true
        → All IsNet nets
        → Ensures IsCareful Anything (remove_owned system cfg depth local name nets ips)
    unfolding remove_owned
    Ensures-remove_owned name nets [] b all = Ensures-pure tt tt
    Ensures-remove_owned name nets (a ∷ ips) b all =
        Ensures-next (Ensures-remove_if_owned name nets (ipv4_of system cfg depth local a) b all)
          (Ensures-remove_owned name nets ips b all)

    Ensures-remove_found :
        (name : Text) (nets : List Network) (f : Found)
        → has_prefix name (codes "bridge") ≡ true
        → All IsNet nets
        → Ensures IsCareful Anything (remove_found system cfg depth local name nets f)
    Ensures-remove_found name nets (has ips) b all = Ensures-remove_owned name nets ips b all
    Ensures-remove_found name nets no_interface b all = Ensures-pure tt tt
    Ensures-remove_found name nets not_found b all = Ensures-fail not_inspected

    Ensures-remove_claims :
        (claims : Claims)
        → All IsClaim claims
        → Ensures IsCareful Anything (remove_claims system cfg depth local claims)
    unfolding remove_claims remove_addresses_in interface_now
    Ensures-remove_claims [] all = Ensures-pure tt tt
    Ensures-remove_claims ((name, cidrs) ∷ claims) all =
        Ensures-next
          (Ensures-bind {Q = All IsNet}
            (record { at = λ h p. (p, all_networks-IsNet cidrs all.0.1) })
            (λ nets q.
              Ensures-bind {Q = Anything} (record { at = λ h p. ((tt, p), tt) })
                (λ f u. Ensures-remove_found name nets f all.0.0 q)))
          (Ensures-remove_claims claims all.1)

    Ensures-check_gone :
        (cidr : Text) → Ensures IsCareful Anything (check_gone system cfg depth local cidr)
    unfolding check_gone
    Ensures-check_gone cidr = Ensures-bind (Ensures-lookup cidr) (λ name u.
        Ensures-if {b = name == []} (λ e. Ensures-pure true tt) (λ e. Ensures-fail address_remains))

    Ensures-recover :
        Ensures IsCareful Anything (recover_stale_vxlan system cfg depth local looks bridge)
    unfolding recover_stale_vxlan remove_stale terminate_matching_processes
    Ensures-recover = Ensures-bind (Ensures-find system cfg local bridge depth looks) (λ ps m.
        Ensures-bind (Ensures-claimed bridge [] (inl refl) tt) (λ first c.
          Ensures-bind (Ensures-claim_all ps first m c) (λ claims all.
            Ensures-if {b = is_nil ps && is_nil claims} (λ e. Ensures-pure false tt)
              (λ e.
                Ensures-next {Q = Anything}
                  (Ensures-if {b = is_nil ps} (λ f. Ensures-pure tt tt)
                    (λ f.
                      Ensures-next (Ensures-interrupt system cfg local bridge depth looks ps m)
                        (Ensures-wait system cfg local bridge depth looks looks)))
                  (Ensures-next (Ensures-remove_claims claims all) (Ensures-check_gone bridge))))))

    Ensures-start :
        (line : List Text) → Ensures IsCareful Anything (start_process system cfg depth local line)
    unfolding start_process
    Ensures-start line = record {
      at = λ h p. ((tt, p), OnOk-any (start_process system cfg depth local line h).0);
    }

    Ensures-start_again :
        (line : List Text) (r : Result VxlanError (Unit {0}))
        → Ensures IsCareful Anything (start_again system cfg depth local looks bridge line r)
    unfolding start_again
    Ensures-start_again line (ok u) = Ensures-pure u tt
    Ensures-start_again line (err e) = Ensures-bind Ensures-recover (λ recovered u.
        Ensures-if {b = recovered} (λ f. Ensures-start line) (λ f. Ensures-fail not_started))

    -- Whatever the system answers, every signal on the way to a new tunnel goes to a process that ps
    -- showed with the program and the flags of this tunnel or, if that one is a wrapper and the signal is
    -- an interrupt, to one below it; and every address that is removed is on a bridge interface, in the
    -- network of the new tunnel or of such a process.
    pub launch_vxlan-IsCareful :
        (line : List Text) (h : List Call)
        → IsCareful h
        → IsCareful (launch_vxlan system cfg depth local looks bridge line h).1
    unfolding launch_vxlan
    launch_vxlan-IsCareful line h p =
        ((Ensures-next {Q = Anything} Ensures-recover (
            Ensures-bind (Ensures-attempt (Ensures-start line))
              (λ r u. Ensures-start_again line r))).at
          h p).0
