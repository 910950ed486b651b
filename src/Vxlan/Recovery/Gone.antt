-- ===== src/Vxlan/Recovery/Gone.antt =====
-- What a recovery that ends well leaves (pkg/maclet/vxlan_recovery.go).
use maclet.Prelude.{
  ℕ, ◌≡◌, refl, subst, true, false, not, ◌&&◌, Option, none, some, List, [], ◌∷◌, ◌==◌,
  text_eq_instance, text_eq_iff, ok, or_err,
}
use maclet.Prelude.Exec.Triples.{
  Holds, Triple, Triple-pure, Triple-fail, Triple-if, Triple-bind, Triple-any, Triple-given,
  Triple-always, Triple-lift,
}
use maclet.Prelude.Text.{Text}
use maclet.Vxlan.{VxlanConfig, Process}
use maclet.Vxlan.Recovery.{
  interfaces_now, interface_for_address, find_matching_processes, claim_interface, claim_address,
  claim_all, remove_claims, check_gone, remove_stale, recover_stale_vxlan,
}
use maclet.Vxlan.Interfaces.{
  Interface, Call, System, Claims, claim, is_bridge_interface, is_nil, cidr_address, interface_with,
  list_interfaces, not_a_bridge, not_inspected, address_remains,
}

module _ (system : System) (cfg : VxlanConfig) (depth : ℕ) (local bridge : Text) where
  -- The latest call looked at the interfaces, and `name` is the one with the address, if there is one.
  abbrev pub IsFoundOn : Text → List Call → Type 0
  IsFoundOn name [] = ⊥
  IsFoundOn name (c ∷ h) =
      (c ≡ list_interfaces)
      × (ip : ℕ) × (is : List Interface) × (cidr_address bridge ≡ ok ip)
      × (system.interfaces h ≡ some is)
      × (interface_with ip is ≡ name)

  abbrev pub IsGone : List Call → Type 0
  IsGone = IsFoundOn []

  abbrev IsLooked : List Interface → List Call → Type 0
  IsLooked is [] = ⊥
  IsLooked is (c ∷ h) = (c ≡ list_interfaces) × (system.interfaces h ≡ some is)

  Triple-look : {P : List Call → Type 0} → Triple P IsLooked (interfaces_now system)
  unfolding interfaces_now
  Triple-look = record { at = λ h p. shown h (system.interfaces h) refl }
    where
      shown :
          (h : List Call) (o : Option (List Interface))
          → system.interfaces h ≡ o
          → Holds IsLooked (or_err o not_inspected) (list_interfaces ∷ h)
      shown h none e = tt
      shown h (some is) e = (refl, e)

  looked-IsFoundOn :
      (ip : ℕ) (is : List Interface) (h : List Call)
      → cidr_address bridge ≡ ok ip
      → IsLooked is h
      → IsFoundOn (interface_with ip is) h
  looked-IsFoundOn ip is [] e l = elim l [ ]
  looked-IsFoundOn ip is (c ∷ h) e l = (l.0, ip, is, e, l.1, refl)

  Triple-lookup :
      {P : List Call → Type 0} → Triple P IsFoundOn (interface_for_address system bridge)
  unfolding interface_for_address
  Triple-lookup = Triple-bind (Triple-lift (cidr_address bridge)) (λ ip. Triple-given (λ e.
      Triple-bind Triple-look
        (λ is. Triple-pure (interface_with ip is) (λ h l. looked-IsFoundOn ip is h e l))))

  named-IsGone : (name : Text) (h : List Call) → IsFoundOn name h → (name == []) ≡ true → IsGone h
  named-IsGone name h f e = subst (λ n. IsFoundOn n h) ((text_eq_iff name []).0 e) f

  -- Where a look claims nothing, the address is gone.
  Triple-claim :
      {P : List Call → Type 0}
      → Triple P
          (λ claims h. is_nil claims ≡ true → IsGone h)
          (claim_address system cfg depth local bridge [])
  unfolding claim_address claim_interface claim
  Triple-claim = Triple-bind Triple-lookup (λ name.
      Triple-if {b = name == []} (λ e. Triple-pure [] (λ h f x. named-IsGone name h f e))
        (λ e.
          Triple-if {b = not (is_bridge_interface name)} (λ x. Triple-fail not_a_bridge)
            (λ x. Triple-pure (claim name bridge []) (λ h f y. cc))))

  Triple-claim_all :
      (ps : List Process) (first : Claims)
      → Triple
          (λ h. is_nil first ≡ true → IsGone h)
          (λ claims h. (is_nil ps && is_nil claims) ≡ true → IsGone h)
          (claim_all system cfg depth local ps first)
  unfolding claim_all
  Triple-claim_all [] first = Triple-pure first (λ h k. k)
  Triple-claim_all (p ∷ ps) first =
      Triple-always (λ claims h e. cc) (claim_all system cfg depth local (p ∷ ps) first)

  Triple-check_gone :
      {P : List Call → Type 0}
      → Triple P (λ b h. IsGone h) (check_gone system cfg depth local bridge)
  unfolding check_gone
  Triple-check_gone = Triple-bind Triple-lookup (λ name.
      Triple-if {b = name == []} (λ e. Triple-pure true (λ h f. named-IsGone name h f e))
        (λ e. Triple-fail address_remains))

  -- A recovery that ends without an error, whether there was something to remove or not, leaves the
  -- address of the bridge on no interface: none had it when the interfaces were looked at last, which was
  -- its last call.
  pub recover_stale_vxlan-IsGone :
      (looks : ℕ) (h : List Call)
      → Holds
          (λ b g. IsGone g)
          (recover_stale_vxlan system cfg depth local looks bridge h).0
          (recover_stale_vxlan system cfg depth local looks bridge h).1
  unfolding recover_stale_vxlan remove_stale
  recover_stale_vxlan-IsGone looks h =
      (Triple-bind {P = λ g. Unit {0}} (Triple-any (find_matching_processes system cfg depth local))
          (λ ps. Triple-bind Triple-claim (λ first.
            Triple-bind (Triple-claim_all ps first) (λ claims.
              Triple-if {b = is_nil ps && is_nil claims} (λ e. Triple-pure false (λ g k. k e))
                (λ e. Triple-bind (Triple-any _) (λ u.
                  Triple-bind (Triple-any (remove_claims system cfg depth local claims))
                    (λ v. Triple-check_gone))))))).at
        h tt
