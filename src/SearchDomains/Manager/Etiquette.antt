-- ===== src/SearchDomains/Manager/Etiquette.antt =====
-- The manager leaves the domains of others alone.
use maclet.Prelude.{
  ap, ◌⊎◌, subst, ℕ, ◌≡◌, refl, sym, ◌∙◌, Bool, true, false, Option, none, some, List, [], ◌∷◌,
  ◌==◌, text_eq_instance, contains, arith, if◌then◌else◌, Result, ok, err, inl, inr,
}
use maclet.Prelude.Exec.{◌>>◌, ◌>>=◌, continue}
use maclet.Prelude.Text.{Text, codes}
use maclet.SearchDomains.Lists.{foreign, search_domains_args}
use maclet.SearchDomains.Parsers.{parse_search_domains}
use maclet.SearchDomains.Manager.{
  SearchError, Call, networksetup, scutil, World, is_empty, run, set, found_service,
  resolve_service, search_domains, apply, verify, effective_search_domains, release, publish, react,
  reconcile,
}

module _ (table : ℕ → ℕ) (host : List Call → Call → Option Text) where
  -- The list that an output shows; a failed read shows none.
  abbrev shown : Option Text → List Text
  shown none = []
  shown (some out) = parse_search_domains table out

  -- The list that the latest read showed.
  abbrev pub last_read : List Call → List Text
  last_read [] = []
  last_read (networksetup true args ∷ h) = last_read h
  last_read (networksetup false [] ∷ h) = last_read h
  last_read (networksetup false (a ∷ args) ∷ h) =
      if a == codes "-getsearchdomains"
      then shown (host h (networksetup false (a ∷ args)))
      else last_read h
  last_read (scutil args ∷ h) = last_read h

  -- Each write names every foreign domain that the latest read before it showed.
  abbrev pub IsPolite : List Text → List Call → Type 0
  IsPolite domains [] = Unit
  IsPolite domains (networksetup true args ∷ h) =
      ((c : Text)
        → contains (foreign table (last_read h) domains) c ≡ true
        → contains args c ≡ true)
      × IsPolite domains h
  IsPolite domains (networksetup false args ∷ h) = IsPolite domains h
  IsPolite domains (scutil args ∷ h) = IsPolite domains h

  contains-search_domains_args :
      (service : Text) (ds : List Text) (c : Text)
      → contains ds c ≡ true
      → contains (search_domains_args service ds) c ≡ true
  unfolding search_domains_args contains
  contains-search_domains_args service [] c h = cc
  contains-search_domains_args service (d ∷ ds) c h = ground arith

  apply_lem :
      (ds : List Text) (w : World)
      → ((apply table host ds w).1.calls
          ≡ networksetup true (search_domains_args w.manager.service ds) ∷ w.calls)
        × ((apply table host ds w).1.manager ≡ w.manager)
  unfolding apply run
  apply_lem ds w = ground arith

  apply-IsPolite :
      (domains : List Text) (ds : List Text) (w : World)
      → IsPolite domains w.calls
      → ((c : Text)
          → contains (foreign table (last_read w.calls) domains) c ≡ true
          → contains ds c ≡ true)
      → IsPolite domains (apply table host ds w).1.calls
  apply-IsPolite domains ds w p keep =
      subst (λ h. IsPolite domains h) (sym (apply_lem ds w).0)
        (λ c h. contains-search_domains_args w.manager.service ds c (keep c h), p)

  publish-calls :
      (w : World)
      → ((publish table host w).1.calls ≡ (apply table host w.manager.domains w).1.calls)
        ⊎ ((args : List Text) × ((publish table host w).1.calls
              ≡ scutil args ∷ (apply table host w.manager.domains w).1.calls))
  unfolding publish verify effective_search_domains set run apply
  publish-calls w = ground (arith, codes "--dns" ∷ [])

  publish-IsPolite :
      (domains : List Text) (w : World)
      → ((c : Text)
          → contains (foreign table (last_read w.calls) domains) c ≡ true
          → contains w.manager.domains c ≡ true)
      → IsPolite domains w.calls
      → IsPolite domains (publish table host w).1.calls
  publish-IsPolite domains w keep p = elim (publish-calls w) [
    | inl e ↦ subst (IsPolite domains) (sym e) (apply-IsPolite domains w.manager.domains w p keep)
    | inr (args, e) ↦
        subst (IsPolite domains) (sym e) (apply-IsPolite domains w.manager.domains w p keep)
  ]

  release_lem :
      (ds : List Text) (w : World)
      → (release table host ds w).1.calls ≡ (apply table host ds w).1.calls
  unfolding release apply run set
  release_lem ds w = ground arith

  nothing_foreign :
      (others ds : List Text) (c : Text)
      → is_empty others ≡ true
      → contains others c ≡ true
      → contains ds c ≡ true
  unfolding contains
  nothing_foreign [] ds c e h = cc
  nothing_foreign (x ∷ xs) ds c e h = cc

  react-calls :
      (current : List Text) (w : World)
      → ((react table host current w).1.calls ≡ w.calls)
        ⊎ (((react table host current w).1.calls
              ≡ (release table host (foreign table current w.manager.domains) w).1.calls)
            ⊎ ((is_empty (foreign table current w.manager.domains) ≡ true)
                × ((react table host current w).1.calls ≡ (publish table host w).1.calls)))
  unfolding react
  react-calls current w = ground arith

  react-IsPolite :
      (current : List Text) (w : World)
      → IsPolite w.manager.domains w.calls
      → last_read w.calls ≡ current
      → IsPolite w.manager.domains (react table host current w).1.calls
  react-IsPolite current w p e = elim (react-calls current w) [
    | inl h ↦ subst (IsPolite w.manager.domains) (sym h) p
    | inr (inl h) ↦
        subst (IsPolite w.manager.domains)
          (sym (h ∙ release_lem (foreign table current w.manager.domains) w))
          (apply-IsPolite w.manager.domains (foreign table current w.manager.domains) w p
            (λ c k. subst (λ l. contains (foreign table l w.manager.domains) c ≡ true) e k))
    | inr (inr (z, h)) ↦ subst (IsPolite w.manager.domains) (sym h) (
        publish-IsPolite w.manager.domains w
          (λ c k.
            nothing_foreign (foreign table current w.manager.domains) w.manager.domains c z
              (subst (λ l. contains (foreign table l w.manager.domains) c ≡ true) e k))
          p)
  ]

  resolve_service_lem :
      (w : World)
      → ((resolve_service table host w).1.manager.domains ≡ w.manager.domains)
        × (IsPolite w.manager.domains w.calls
            → IsPolite w.manager.domains (resolve_service table host w).1.calls)
  unfolding resolve_service found_service set run
  resolve_service_lem w = ground arith

  search_domains_lem :
      (w : World)
      → ((search_domains table host w).1.manager ≡ w.manager)
        × (IsPolite w.manager.domains w.calls
            → IsPolite w.manager.domains (search_domains table host w).1.calls)
  unfolding search_domains run
  search_domains_lem w = ground arith

  search_domains-ok :
      (w : World) (current : List Text)
      → (search_domains table host w).0 ≡ ok current
      → last_read (search_domains table host w).1.calls ≡ current
  unfolding search_domains run
  search_domains-ok w current h = ground arith

  after_read :
      (r : Result SearchError (List Text)) (w : World)
      → IsPolite w.manager.domains w.calls
      → ((current : List Text) → r ≡ ok current → last_read w.calls ≡ current)
      → IsPolite w.manager.domains (continue r (react table host) w).1.calls
  after_read (err e) w p h = p
  after_read (ok current) w p h = react-IsPolite current w p (h current refl)

  after_resolve :
      (r : Result SearchError (Unit {0})) (w : World)
      → IsPolite w.manager.domains w.calls
      → IsPolite w.manager.domains
          (continue r (λ u. search_domains table host >>= react table host) w).1.calls
  after_resolve (err e) w p = p
  after_resolve (ok u) w p =
      let (r, w') = search_domains table host w in
      let e = (search_domains_lem w).0 in
      subst (λ m. IsPolite m.domains (continue r (react table host) w').1.calls) e
        (after_read r w'
          (subst (λ m. IsPolite m.domains w'.calls) (sym e) ((search_domains_lem w).1 p))
          (search_domains-ok w))

  -- What holds of the calls made so far holds after a tick: every list written to the system names
  -- every domain of others that the latest read before it showed.
  pub reconcile-IsPolite :
      (w : World)
      → IsPolite w.manager.domains w.calls
      → IsPolite w.manager.domains (reconcile table host w).1.calls
  unfolding reconcile
  reconcile-IsPolite w p = go (is_empty w.manager.domains)
    where
      go :
          (b : Bool)
          → IsPolite w.manager.domains
              (if b
                then (ok tt, w)
                else (resolve_service table host
                      >> (search_domains table host >>= react table host))
                    w).1.calls
      go true = p
      go false =
          let (r, w') = resolve_service table host w in
          let e = (resolve_service_lem w).0 in
          subst
            (λ ds.
              IsPolite ds
                (continue r (λ u. search_domains table host >>= react table host) w').1.calls)
            e
            (after_resolve r w'
              (subst (λ ds. IsPolite ds w'.calls) (sym e) ((resolve_service_lem w).1 p)))

  react-last_read :
      (current : List Text) (w : World)
      → last_read (react table host current w).1.calls ≡ last_read w.calls
  unfolding react publish release verify effective_search_domains set run apply
  react-last_read current w = ground arith

  react-owned :
      (current : List Text) (w : World)
      → (react table host current w).0 ≡ ok tt
      → (react table host current w).1.manager.owned
        ≡ is_empty (foreign table current w.manager.domains)
  unfolding react publish release verify effective_search_domains set run apply
  react-owned current w h = ground arith

  owned_after_read :
      (r : Result SearchError (List Text)) (w : World)
      → ((current : List Text) → r ≡ ok current → last_read w.calls ≡ current)
      → (continue r (react table host) w).0 ≡ ok tt
      → (continue r (react table host) w).1.manager.owned
        ≡ is_empty
            (foreign table (last_read (continue r (react table host) w).1.calls) w.manager.domains)
  owned_after_read (err e) w h k = cc
  owned_after_read (ok current) w h k =
      react-owned current w k
      ∙ ap (λ l. is_empty (foreign table l w.manager.domains))
          (sym (react-last_read current w ∙ h current refl))

  owned_after_resolve :
      (r : Result SearchError (Unit {0})) (w : World)
      → (continue r (λ u. search_domains table host >>= react table host) w).0 ≡ ok tt
      → (continue r (λ u. search_domains table host >>= react table host) w).1.manager.owned
        ≡ is_empty (
            foreign table
              (last_read
                (continue r (λ u. search_domains table host >>= react table host) w).1.calls)
              w.manager.domains)
  owned_after_resolve (err e) w k = cc
  owned_after_resolve (ok u) w k =
      let (r, w') = search_domains table host w in
      owned_after_read r w' (search_domains-ok w) k
      ∙ ap
          (λ m.
            is_empty
              (foreign table (last_read (continue r (react table host) w').1.calls) m.domains))
          (search_domains_lem w).0

  -- After a tick without an error, with some domain to publish, the manager holds the list as its own
  -- exactly when the latest read showed no domain of others.
  pub reconcile-owned :
      (w : World)
      → is_empty w.manager.domains ≡ false
      → (reconcile table host w).0 ≡ ok tt
      → (reconcile table host w).1.manager.owned
        ≡ is_empty (foreign table (last_read (reconcile table host w).1.calls) w.manager.domains)
  unfolding reconcile
  reconcile-owned w n k = go (is_empty w.manager.domains) n k
    where
      go :
          (b : Bool)
          → b ≡ false
          → (if b
              then (ok tt, w)
              else (resolve_service table host >> (search_domains table host >>= react table host))
                  w).0
            ≡ ok tt
          → (if b
              then (ok tt, w)
              else (resolve_service table host >> (search_domains table host >>= react table host))
                  w).1.manager.owned
            ≡ is_empty (
                foreign table
                  (last_read
                    (if b
                      then (ok tt, w)
                      else (resolve_service table host
                            >> (search_domains table host >>= react table host))
                          w).1.calls)
                  w.manager.domains)
      go true n k = cc
      go false n k =
          let (r, w') = resolve_service table host w in
          owned_after_resolve r w' k
          ∙ ap
              (λ ds. is_empty (
                foreign table
                  (last_read
                    (continue r (λ u. search_domains table host >>= react table host) w').1.calls)
                  ds))
              (resolve_service_lem w).0
