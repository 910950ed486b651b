-- ===== src/Network/Aliases/Bookkeeping.antt =====
-- What addWorkloadIP and removeWorkloadIP leave in the handle.
use maclet.Prelude.{
  ◌≡◌, refl, sym, ap, ◌∙◌, inl, inr, false, List, [], ◌∷◌, ◌++◌, arith, text_eq_instance, contains,
  if◌then◌else◌, Result, ok, err, Bool-cases,
}
use maclet.Prelude.Text.{Text}
use maclet.Prelude.Exec.{continue}
use maclet.Network.Addresses.{NetError}
use maclet.Network.Handle.{Handle, Call, add_alias, Reply, failed, done, table, check_address}
use maclet.Network.Aliases.{
  World, ask, push_alias, adopt_after_race, after_alias, place_alias, interface_for_address,
  add_workload_ip,
}

abbrev pub with_alias : Handle → Text → Handle
with_alias h c = record h { aliases = h.aliases ++ c ∷ [] }

-- An error leaves the handle; success adds the alias.
abbrev placed : Handle → Text → Result NetError (Unit {0}) → Handle
placed h c (err e) = h
placed h c (ok _) = with_alias h c

-- Success adds the canonical address, once.
abbrev pub added : Handle → Text → Result NetError (Unit {0}) → Handle
added h c (err e) = h
added h c (ok _) = if contains h.aliases c then h else with_alias h c

added_new :
    (h : Handle) (c : Text) (r : Result NetError (Unit {0}))
    → contains h.aliases c ≡ false
    → added h c r ≡ placed h c r
added_new h c (ok _) e = rw e
added_new h c (err x) e = refl

module _ (host : List Call → Call → Reply) where
  -- The handle after each part, whatever the host answered.
  interface_for_address-handle :
      (ip : Text) (w : World) → (interface_for_address host ip w).1.handle ≡ w.handle
  unfolding interface_for_address
  interface_for_address-handle ip w = ground arith

  adopt_after_race-placed :
      (c : Text) (r : Result NetError Text) (w : World)
      → (adopt_after_race host c r w).1.handle ≡ placed w.handle c (adopt_after_race host c r w).0
  unfolding adopt_after_race push_alias
  adopt_after_race-placed c r w = ground arith

  after_alias-placed :
      (c : Text) (r : Reply) (w : World)
      → (after_alias host c r w).1.handle ≡ placed w.handle c (after_alias host c r w).0
  unfolding after_alias push_alias
  after_alias-placed c done w = refl
  after_alias-placed c (table t) w = refl
  after_alias-placed c failed w =
      let (r, w') = interface_for_address host c w in
      adopt_after_race-placed c r w'
      ∙ ap (λ h. placed h c (adopt_after_race host c r w').0) (interface_for_address-handle c w)

  place_alias-placed :
      (c found : Text) (w : World)
      → (place_alias host c found w).1.handle ≡ placed w.handle c (place_alias host c found w).0
  unfolding place_alias ask push_alias
  place_alias-placed c found w = ground (
    arith,
    after_alias-placed c (host w.calls (add_alias w.handle.interface c))
        (record w { calls = add_alias w.handle.interface c ∷ w.calls }),
  )

  continue-placed :
      (c : Text) (r : Result NetError Text) (h : Handle) (w : World)
      → w.handle ≡ h
      → (continue r (place_alias host c) w).1.handle
        ≡ placed h c (continue r (place_alias host c) w).0
  continue-placed c (ok found) h w e =
      place_alias-placed c found w ∙ ap (λ g. placed g c (place_alias host c found w).0) e
  continue-placed c (err x) h w e = e

  -- After addWorkloadIP the handle is determined by whether it succeeded: on an error it is as before,
  -- and on success it has the canonical address, which is not added a second time.
  pub add_workload_ip-handle :
      (ip c : Text) (w : World)
      → check_address w.handle ip ≡ ok c
      → (add_workload_ip host ip w).1.handle ≡ added w.handle c (add_workload_ip host ip w).0
  unfolding add_workload_ip
  add_workload_ip-handle ip c w e = elim (Bool-cases (contains w.handle.aliases c)) [
    | inl old ↦ rw (e, old) (rw old refl)
    | inr new ↦
        let (r, w') = interface_for_address host c w in
        rw (e, new)
          (continue-placed c r w.handle w' (interface_for_address-handle c w)
            ∙ sym (added_new w.handle c _ new))
  ]

  -- An address that fails the checks is refused without asking the host anything.
  pub add_workload_ip-refused :
      (ip : Text) (x : NetError) (w : World)
      → check_address w.handle ip ≡ err x
      → add_workload_ip host ip w ≡ (err x, w)
  unfolding add_workload_ip
  add_workload_ip-refused ip x w e = rw e
