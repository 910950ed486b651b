-- ===== src/Resolver/Manager/Agreement.antt =====
-- What the resolver of a session keeps and leaves (pkg/maclet/dns_resolver.go).
mod Tests
use maclet.Prelude.{
  ℕ, ◌≡◌, refl, sym, ap, ◌∙◌, subst, Bool, true, false, not, ◌||◌, ◌&&◌, Option, none, some, List,
  [], ◌∷◌, arith, text_eq, text_eq_iff, ◌==◌, text_eq_instance, list_eq, same_refl, if◌then◌else◌,
  Result, ok, err, Bool-cases, inl, inr,
}
use maclet.Prelude.Exec.{pure, fail, lift, attempt}
use maclet.Prelude.Exec.Bind.{◌>>=◌, ◌>>◌}
use maclet.Prelude.Exec.Keeps.{
  Anything, Ensures, Ensures-pure, Ensures-fail, Ensures-if, Ensures-bind, Ensures-next,
  Ensures-attempt, Ensures-lift,
}
use maclet.Prelude.Exec.Triples.{Triple, Holds, Triple-pure, Triple-fail, Triple-if, Triple-bind}
use maclet.Prelude.Text.{Text}
use maclet.Resolver.{
  is_managed_resolver_file, resolver_file_content, same_strings, default_path, default_domain,
}
use maclet.Resolver.Files.{
  Call, get_service, run_helper, read_file, ResolverError, helper_failed, bad_arguments, World, Io,
  ask, is_nil, not_read, replaced_at, same_content, read_file_at, write_managed_resolver_file,
  managed_resolver_file_matches, remove_managed_resolver_file,
}
use maclet.Resolver.Files.Foreign.{
  IsForeign, Ensures-ask, Ensures-matches, Ensures-write, Ensures-remove,
}
use maclet.Resolver.Files.Installed.{IsSettledBy, write_managed_resolver_file-atomic}
use maclet.Resolver.Manager.{
  Resolver, Service, usable, discover_nameservers, resolver_helper, as_helper_error,
  run_resolver_helper, write_resolver, chosen, is_current, publish, settled, after_choice,
  reconcile, cleanup,
}

module _ (host : List Call → Call → Bool) (service : List Call → Option Service) where
  module _ (q body : Text) (foreign : is_managed_resolver_file body ≡ false) where
    abbrev Kept : World → Type 0
    Kept w = w.disk q ≡ some body

    called : (w : World) (c : Call) → Kept w → Kept (record w { calls = c ∷ w.calls })
    called w c p = p

    Ensures-helper :
        (remove : Bool) (nameservers : List Text)
        → Ensures Kept Anything (resolver_helper host service remove nameservers)
    unfolding resolver_helper
    Ensures-helper remove nameservers =
        Ensures-if {b = remove}
          (λ x.
            Ensures-if {b = is_nil nameservers}
              (λ y. Ensures-remove host q body foreign default_path)
              (λ y. Ensures-fail bad_arguments))
          (λ x. Ensures-write host q body foreign default_path default_domain nameservers)

    Ensures-run :
        (remove : Bool) (nameservers : List Text)
        → Ensures Kept Anything (run_resolver_helper host service remove nameservers)
    unfolding run_resolver_helper
    Ensures-run remove nameservers = Ensures-bind (Ensures-ask host called run_helper) (λ started u.
        Ensures-next {Q = Anything}
          (Ensures-if {b = started} (λ x. Ensures-pure tt tt) (λ x. Ensures-fail helper_failed))
          (Ensures-bind (Ensures-attempt (Ensures-helper remove nameservers))
            (λ r v. Ensures-lift (as_helper_error host service r))))

    Ensures-write_resolver :
        (r : Resolver) (nameservers : List Text)
        → Ensures Kept Anything (write_resolver host service r nameservers)
    unfolding write_resolver
    Ensures-write_resolver r nameservers =
        Ensures-if {b = r.use_sudo} (λ x. Ensures-run false nameservers)
          (λ x. Ensures-write host q body foreign r.path r.domain nameservers)

    Ensures-publish :
        (r : Resolver) (nameservers : List Text)
        → Ensures Kept Anything (publish host service r nameservers)
    unfolding publish is_current
    Ensures-publish r nameservers =
        Ensures-bind {Q = Anything}
          (Ensures-if {b = same_strings r.nameservers nameservers && r.owned}
            (λ x. Ensures-matches host called r.path r.domain nameservers)
            (λ x. Ensures-pure false tt))
          (λ current u.
            Ensures-if {b = current} (λ x. Ensures-pure r tt)
              (λ x. Ensures-next (Ensures-write_resolver r nameservers) (Ensures-pure _ tt)))

    Ensures-after_choice :
        (r : Resolver) (c : Result ResolverError (Resolver × List Text))
        → Ensures Kept Anything (after_choice host service r c)
    unfolding after_choice
    Ensures-after_choice r (err e) = Ensures-pure (r, err e) tt
    Ensures-after_choice r (ok (r', nameservers)) =
        Ensures-bind (Ensures-attempt (Ensures-publish r' nameservers))
          (λ result u. Ensures-pure (settled host service r' result) tt)

    Ensures-discover : Ensures Kept Anything (discover_nameservers host service)
    unfolding discover_nameservers
    Ensures-discover = Ensures-bind (Ensures-ask host called get_service) (λ done u. record {
      at = λ w p. (Ensures-lift {P = Kept} (usable host service (service w.calls))).at w p;
    })

    Ensures-reconcile : (r : Resolver) → Ensures Kept Anything (reconcile host service r)
    unfolding reconcile
    Ensures-reconcile r =
        Ensures-bind (Ensures-attempt Ensures-discover)
          (λ found u. Ensures-after_choice r (chosen host service r found))

    Ensures-cleanup : (r : Resolver) → Ensures Kept Anything (cleanup host service r)
    unfolding cleanup
    Ensures-cleanup r =
        Ensures-if {b = not r.owned} (λ x. Ensures-pure r tt)
          (λ x.
            Ensures-next {Q = Anything}
              (Ensures-if {b = r.use_sudo} (λ y. Ensures-run true [])
                (λ y. Ensures-remove host q body foreign r.path))
              (Ensures-pure _ tt))

  -- A file that does not start with maclet's comment keeps its content through a tick and a clean-up, be
  -- it at the path of the resolver or at another one, with or without the privileged helper.
  pub resolver-IsForeign :
      (q body : Text)
      → is_managed_resolver_file body ≡ false
      → (r : Resolver) (w : World) → w.disk q ≡ some body
      → ((reconcile host service r w).1.disk q ≡ some body)
        × ((cleanup host service r w).1.disk q ≡ some body)
  resolver-IsForeign q body foreign r w p = (
    ((Ensures-reconcile q body foreign r).at w p).0,
    ((Ensures-cleanup q body foreign r).at w p).0,
  )

  -- The file at the resolver's path holds what the resolver published, and the resolver owns it.
  abbrev pub IsPublished : Resolver → World → Type 0
  IsPublished r w =
      (w.disk r.path ≡ some (resolver_file_content r.domain r.nameservers)) × (r.owned ≡ true)

  -- A file with the content of the nameservers
  abbrev HasContent : Resolver → List Text → World → Type 0
  HasContent r nameservers w = w.disk r.path ≡ some (resolver_file_content r.domain nameservers)

  same_content-lem :
      (path domain : Text) (nameservers : List Text) (o : Option Text)
      → same_content host path domain nameservers o ≡ true
      → o ≡ some (resolver_file_content domain nameservers)
  same_content-lem path domain nameservers none e = cc
  same_content-lem path domain nameservers (some body) e =
      ground (arith, e, text_eq_iff body (resolver_file_content domain nameservers))

  same_strings-lem : (xs ys : List Text) → same_strings xs ys ≡ true → xs ≡ ys
  unfolding same_strings list_eq
  same_strings-lem [] [] e = refl
  same_strings-lem [] (y ∷ ys) e = cc
  same_strings-lem (x ∷ xs) [] e = cc
  same_strings-lem (x ∷ xs) (y ∷ ys) e = ground (arith, same_strings-lem xs ys, text_eq_iff x y)

  -- What is known where the file was found to be current
  abbrev IsCurrent : Resolver → List Text → Bool → World → Type 0
  IsCurrent r nameservers current w =
      current ≡ true → HasContent r nameservers w × (r.nameservers ≡ nameservers) × (r.owned ≡ true)

  Triple-ask : {P : World → Type 0} (c : Call) → Triple P (λ done w. Unit {0}) (ask host c)
  unfolding ask
  Triple-ask c = record { at = λ w p. tt }

  Triple-matches :
      (r : Resolver) (nameservers : List Text)
      → Triple
          (λ w. Unit {0})
          (λ current w. current ≡ true → HasContent r nameservers w)
          (managed_resolver_file_matches host r.path r.domain nameservers)
  unfolding managed_resolver_file_matches read_file_at
  Triple-matches r nameservers =
      Triple-bind {Q = λ o w. w.disk r.path ≡ o}
        (Triple-bind {Q = λ done w. Unit {0}} (Triple-ask (read_file r.path)) (λ done.
          Triple-if {b = done} (λ x. record { at = λ w p. refl }) (λ x. Triple-fail not_read)))
        (λ o. Triple-pure _ (λ w p e. p ∙ same_content-lem r.path r.domain nameservers o e))

  Triple-IsCurrent :
      (r : Resolver) (nameservers : List Text)
      → Triple (λ w. Unit {0}) (IsCurrent r nameservers) (is_current host service r nameservers)
  unfolding is_current
  Triple-IsCurrent r nameservers =
      Triple-if {b = same_strings r.nameservers nameservers && r.owned}
        (λ x.
          weaker (same_strings-lem r.nameservers nameservers (ground (arith, x)))
            (ground (arith, x)) (Triple-matches r nameservers))
        (λ x. Triple-pure false (λ w p e. cc))
    where
      weaker :
          r.nameservers ≡ nameservers
          → r.owned ≡ true
          → {m : Io Bool}
          → Triple (λ w. Unit {0}) (λ current w. current ≡ true → HasContent r nameservers w) m
          → Triple (λ w. Unit {0}) (IsCurrent r nameservers) m
      weaker same owned {m = m} t = record { at = λ w p. under (m w).0 (m w).1 (t.at w p) }
        where
          under :
              (o : Result ResolverError Bool) (w : World)
              → Holds (λ current v. current ≡ true → HasContent r nameservers v) o w
              → Holds (IsCurrent r nameservers) o w
          under (ok b) w h = λ e. (h e, same, owned)
          under (err x) w h = tt

  Triple-write :
      (r : Resolver) (nameservers : List Text)
      → r.use_sudo ≡ false
      → Triple
          (λ w. Unit {0})
          (λ u w. HasContent r nameservers w)
          (write_resolver host service r nameservers)
  unfolding write_resolver replaced_at
  Triple-write r nameservers plain =
      Triple-if {b = r.use_sudo} (λ x. ground (arith, x, plain))
        (λ x. record {
          at = λ w p.
              written (write_managed_resolver_file host r.path r.domain nameservers w).0 _ w
                (write_managed_resolver_file-atomic host r.path r.domain nameservers w);
        })
    where
      written :
          (o : Result ResolverError (Unit {0})) (v w : World)
          → IsSettledBy w.disk
              (replaced_at r.path (some (resolver_file_content r.domain nameservers)) w.disk)
              w.doubtful
              o
              v
          → Holds (λ u x. HasContent r nameservers x) o v
      written (ok u) v w h = ap (λ d. d r.path) h.0 ∙ ground (arith, same_refl r.path)
      written (err e) v w h = tt

  Triple-publish :
      (r : Resolver) (nameservers : List Text)
      → r.use_sudo ≡ false
      → Triple (λ w. Unit {0}) IsPublished (publish host service r nameservers)
  unfolding publish
  Triple-publish r nameservers plain =
      Triple-bind {Q = IsCurrent r nameservers} (Triple-IsCurrent r nameservers) (λ current.
        Triple-if {b = current}
          (λ x. Triple-pure r (λ w p.
            let (there, same, owned) = p x in
            (subst (λ ns. HasContent r ns w) (sym same) there, owned)))
          (λ x.
            Triple-bind {Q = λ u w. HasContent r nameservers w}
              (strengthen (Triple-write r nameservers plain))
              (λ u. Triple-pure _ (λ w h. (h, refl)))))
    where
      strengthen :
          {P : World → Type 0} {m : Io (Unit {0})}
          → Triple (λ w. Unit {0}) (λ u w. HasContent r nameservers w) m
          → Triple P (λ u w. HasContent r nameservers w) m
      strengthen t = record { at = λ w p. t.at w tt }

  -- The choice did not change how files are written.
  abbrev IsPlain : Result ResolverError (Resolver × List Text) → Type 0
  IsPlain (ok (r, nameservers)) = r.use_sudo ≡ false
  IsPlain (err e) = Unit

  chosen-IsPlain :
      (r : Resolver) (found : Result ResolverError (List Text))
      → r.use_sudo ≡ false
      → IsPlain (chosen host service r found)
  unfolding chosen
  chosen-IsPlain r (ok nameservers) plain = plain
  chosen-IsPlain r (err e) plain = ground (arith, plain)

  -- What holds of the value of a tick
  abbrev pub IsTickDone : Resolver × Result ResolverError (Unit {0}) → World → Type 0
  IsTickDone o v = o.1 ≡ ok tt → IsPublished o.0 v

  Triple-settled :
      (r : Resolver) (result : Result ResolverError Resolver)
      → Triple {E = ResolverError}
          (λ w. Holds IsPublished result w)
          IsTickDone
          (pure (settled host service r result))
  Triple-settled r (ok r') = Triple-pure (r', ok tt) (λ w p e. p)
  Triple-settled r (err e) = Triple-pure (r, err e) (λ w p x. cc)

  Triple-after_choice :
      (r : Resolver) (c : Result ResolverError (Resolver × List Text))
      → IsPlain c
      → Triple (λ w. Unit {0}) IsTickDone (after_choice host service r c)
  unfolding after_choice
  Triple-after_choice r (err e) plain = Triple-pure (r, err e) (λ w p x. cc)
  Triple-after_choice r (ok (r', nameservers)) plain =
      Triple-bind {Q = λ result w. Holds IsPublished result w}
        (record { at = λ w p. (Triple-publish r' nameservers plain).at w p })
        (λ result. Triple-settled r' result)

  -- A tick without the privileged helper that ends well leaves the resolver owning the file at its path,
  -- and that file holds exactly the nameservers that the resolver records.
  pub reconcile-IsPublished :
      (r : Resolver) (w : World)
      → r.use_sudo ≡ false
      → Holds IsTickDone (reconcile host service r w).0 (reconcile host service r w).1
  unfolding reconcile
  reconcile-IsPublished r w plain =
      (Triple-bind {P = λ v. Unit {0}} {Q = λ o v. Unit {0}}
          {m = attempt (discover_nameservers host service)}
          {f = λ found. after_choice host service r (chosen host service r found)}
          (record { at = λ v p. tt })
          (λ found.
            Triple-after_choice r (chosen host service r found) (chosen-IsPlain r found plain))).at
        w tt
