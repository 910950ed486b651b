-- ===== src/Network/Aliases/Distinct.antt =====
-- The handle (pkg/maclet/darwin_network.go) lists no address twice.
mod Tests
use maclet.Prelude.{
  ◌≡◌, refl, sym, ap, subst, ◌∙◌, ◌⊎◌, inl, inr, Bool, true, false, not, ◌||◌, ◌&&◌, List, [], ◌∷◌,
  ◌++◌, arith, ◌==◌, text_eq, text_eq_iff, text_eq_instance, contains, if◌then◌else◌, Result, ok,
  err, Bool-cases, Result-cases, Option-cases, none, some,
}
use maclet.Prelude.Text.{Text}
use maclet.Network.Addresses.{NetError}
use maclet.Net.V4.{format_v4}
use maclet.Net.Cidr.{parse_ip, to4}
use maclet.Network.Handle.{
  failed, done, table, remove_alias, Handle, Call, Reply, check_address, drop_alias,
}
use maclet.Network.Aliases.{
  World, ask, after_removal, remove_canonical, add_workload_ip, remove_workload_ip,
}
use maclet.Network.Aliases.Bookkeeping.{added, add_workload_ip-handle, add_workload_ip-refused}

-- No address stands twice.
abbrev pub IsDistinct : List Text → Type 0
IsDistinct [] = Unit
IsDistinct (a ∷ as') = (contains as' a ≡ false) × IsDistinct as'

contains-end :
    (as' : List Text) (c a : Text) → contains (as' ++ c ∷ []) a ≡ (contains as' a || text_eq c a)
unfolding contains
contains-end [] c a = ground arith
contains-end (x ∷ xs) c a = ground (arith, contains-end xs c a)

end-IsDistinct :
    (as' : List Text) (c : Text)
    → contains as' c ≡ false
    → IsDistinct as'
    → IsDistinct (as' ++ c ∷ [])
unfolding contains
end-IsDistinct [] c h d = (refl, tt)
end-IsDistinct (x ∷ xs) c h d = (
  ground (arith, contains-end xs c x, h, d.0, text_eq_iff x c, text_eq_iff c x),
  end-IsDistinct xs c (ground (arith, h)) d.1,
)

contains-drop_alias :
    (c : Text) (as' : List Text) (a : Text)
    → contains as' a ≡ false
    → contains (drop_alias c as') a ≡ false
unfolding contains drop_alias
contains-drop_alias c [] a h = h
contains-drop_alias c (x ∷ xs) a h = ground (arith, contains-drop_alias c xs a)

drop_alias-IsDistinct :
    (c : Text) (as' : List Text) → IsDistinct as' → IsDistinct (drop_alias c as')
unfolding drop_alias
drop_alias-IsDistinct c [] d = tt
drop_alias-IsDistinct c (x ∷ xs) d = go (drop_alias-IsDistinct c xs d.1) (text_eq x c)
  where
    go :
        IsDistinct (drop_alias c xs)
        → (b : Bool) → IsDistinct (if b then xs else x ∷ drop_alias c xs)
    go rest true = d.1
    go rest false = (contains-drop_alias c xs x d.0, rest)

added-IsDistinct :
    (h : Handle) (c : Text) (r : Result NetError (Unit {0}))
    → IsDistinct h.aliases
    → IsDistinct (added h c r).aliases
added-IsDistinct h c (err e) d = d
added-IsDistinct h c (ok u) d = elim (Bool-cases (contains h.aliases c)) [
  | inl old ↦ rw old d
  | inr new ↦ rw new (end-IsDistinct h.aliases c new d)
]

module _ (host : List Call → Call → Reply) where
  -- What a removal may leave of the addresses
  abbrev IsShortened : List Text → List Text → Type 0
  IsShortened before after = (after ≡ before) ⊎ ((c : Text) × (after ≡ drop_alias c before))

  after_removal-aliases :
      (c : Text) (r : Reply) (w : World)
      → IsShortened w.handle.aliases (after_removal host c r w).1.handle.aliases
  unfolding after_removal
  after_removal-aliases c failed w = inl refl
  after_removal-aliases c done w = inr (c, refl)
  after_removal-aliases c (table t) w = inr (c, refl)

  remove_canonical-aliases :
      (c : Text) (w : World)
      → IsShortened w.handle.aliases (remove_canonical host c w).1.handle.aliases
  unfolding remove_canonical ask
  remove_canonical-aliases c w = elim (Bool-cases (contains w.handle.aliases c)) [
    | inl there ↦ rw there (
        after_removal-aliases c (host w.calls (remove_alias w.handle.interface c))
          (record w { calls = remove_alias w.handle.interface c ∷ w.calls }))
    | inr not_there ↦ rw not_there (inl refl)
  ]

  remove_workload_ip-aliases :
      (ip : Text) (w : World)
      → IsShortened w.handle.aliases (remove_workload_ip host ip w).1.handle.aliases
  unfolding remove_workload_ip
  remove_workload_ip-aliases ip w = elim (Option-cases (parse_ip ip)) [
    | inl e ↦ rw e (inl refl)
    | inr (p, e) ↦ elim (Option-cases (to4 p)) [
      | inl f ↦ rw (e, f) (inl refl)
      | inr (a, f) ↦ rw (e, f) (remove_canonical-aliases (format_v4 a) w)
    ]
  ]

  -- Adding and removing addresses, successful or not, keep the list of the handle free of duplicates.
  pub aliases-IsDistinct :
      (ip : Text) (w : World)
      → IsDistinct w.handle.aliases
      → IsDistinct (add_workload_ip host ip w).1.handle.aliases
        × IsDistinct (remove_workload_ip host ip w).1.handle.aliases
  aliases-IsDistinct ip w d = (adding, removing)
    where
      adding : IsDistinct (add_workload_ip host ip w).1.handle.aliases
      adding = elim (Result-cases (check_address w.handle ip)) [
        | inl (c, e) ↦
            subst (λ h. IsDistinct h.aliases) (sym (add_workload_ip-handle host ip c w e))
              (added-IsDistinct w.handle c (add_workload_ip host ip w).0 d)
        | inr (x, e) ↦
            subst (λ r. IsDistinct r.1.handle.aliases) (sym (add_workload_ip-refused host ip x w e))
              d
      ]

      removing : IsDistinct (remove_workload_ip host ip w).1.handle.aliases
      removing = elim (remove_workload_ip-aliases ip w) [
        | inl e ↦ subst IsDistinct (sym e) d
        | inr (c, e) ↦ subst IsDistinct (sym e) (drop_alias-IsDistinct c w.handle.aliases d)
      ]
