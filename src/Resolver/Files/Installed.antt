-- ===== src/Resolver/Files/Installed.antt =====
-- What a write of the resolver file leaves (pkg/maclet/dns_resolver.go): the whole new file, or the disk
-- as it was.
mod Tests
use maclet.Prelude.{
  ℕ, ◌≡◌, refl, sym, ap, ◌∙◌, subst, Bool, true, false, not, ◌||◌, ◌&&◌, Option, none, some, List,
  [], ◌∷◌, ◌++◌, arith, text_eq, text_eq_iff, ◌==◌, text_eq_instance, same_refl, if◌then◌else◌,
  Result, ok, err, Bool-cases, inl, inr,
}
use maclet.Prelude.Exec.{pure, fail, lift, attempt, continue}
use maclet.Prelude.Exec.Bind.{◌>>=◌, ◌>>◌}
use maclet.Prelude.Exec.Keeps.{
  Anything, Ensures, OnOk, Ensures-pure, Ensures-fail, Ensures-if, Ensures-bind, Ensures-next,
  Ensures-lift, Ensures-read,
}
use maclet.Prelude.Text.{Text, codes, cut, trim_space}
use maclet.Resolver.{managed_comment, is_managed_resolver_file, resolver_file_content}
use maclet.Resolver.Files.{
  on_temporary, step_on, Call, make_directory, create_temporary, set_mode, write_content, sync_file,
  close_file, remove_temporary, read_file, rename_to, ResolverError, not_created, not_read,
  not_ours, not_written, not_installed, World, Io, replaced_at, put_file, ask, step, step_open,
  read_file_at, Temporary, new_temporary, change_temporary, move_temporary, on_temporary,
  rename_temporary, fill_temporary, install, require_ours, check_request,
  write_managed_resolver_file, managed_resolver_file_matches, same_content,
}
use maclet.Resolver.Files.Foreign.{
  Ensures-ask, Ensures-step, Ensures-step_open, Ensures-require_ours,
}

-- How an operation ends that has a result: with the disk that belongs to the result, with no path more that
-- got a file without its mode or before it was synced, and without the temporary file if it succeeded
abbrev pub IsSettledBy :
    (Text → Option Text)
    → (Text → Option Text)
    → List Text
    → Result ResolverError (Unit {0})
    → World
    → Type 0
IsSettledBy before after doubtful (ok u) w =
    (w.disk ≡ after) × (w.doubtful ≡ doubtful) × (w.temporary ≡ none)
IsSettledBy before after doubtful (err e) w = (w.disk ≡ before) × (w.doubtful ≡ doubtful)

module _ (host : List Call → Call → Bool) (before : Text → Option Text) (doubtful : List Text) where
  -- Nothing has changed on the disk, but for a temporary file.
  abbrev IsClean : World → Type 0
  IsClean w = (w.disk ≡ before) × (w.doubtful ≡ doubtful)

  abbrev Has : Option Temporary → World → Type 0
  Has o w = (w.disk ≡ before) × (w.doubtful ≡ doubtful) × (w.temporary ≡ o)

  abbrev Ends : {A : Type 0} → (A → World → Type 0) → Result ResolverError A → World → Type 0
  Ends Q (ok a) w = Q a w
  Ends Q (err e) w = IsClean w

  -- From a state with `P` the operation ends with `Q`, or with an error and no change.
  record Goes {A : Type 0} (P : World → Type 0) (Q : A → World → Type 0) (m : Io A) : Type 0 where
    pub at : (w : World) → P w → Ends Q (m w).0 (m w).1

  module _ {A B : Type 0} {Q : A → World → Type 0} {R : B → World → Type 0} where
    Goes-continue :
        (r : Result ResolverError A) (w : World) (f : A → Io B)
        → Ends Q r w
        → ((a : A) → Goes (Q a) R (f a))
        → Ends R (continue r f w).0 (continue r f w).1
    Goes-continue (ok a) w f q k = (k a).at w q
    Goes-continue (err e) w f q k = q

    Goes-bind :
        {P : World → Type 0} {m : Io A} {f : A → Io B}
        → Goes P Q m
        → ((a : A) → Goes (Q a) R (f a))
        → Goes P R (m >>= f)
    unfolding ◌>>=◌
    Goes-bind {m = m} {f = f} km kf = record {
      at = λ w p. Goes-continue (m w).0 (m w).1 f (km.at w p) kf;
    }

  Goes-lift :
      {A : Type 0} (P : World → Type 0) (r : Result ResolverError A)
      → ((w : World) → P w → IsClean w)
      → Goes P (λ a. P) (lift r)
  Goes-lift P (ok a) k = record { at = λ w p. p }
  Goes-lift P (err e) k = record { at = λ w p. k w p }

  Goes-if :
      {A : Type 0} {P : World → Type 0} {Q : A → World → Type 0} (b : Bool) {m n : Io A}
      → Goes P Q m
      → Goes P Q n
      → Goes P Q (if b then m else n)
  Goes-if true km kn = km
  Goes-if false km kn = kn

  -- Calls do not touch the disk.
  module _ (P : World → Type 0)
      (called : (w : World) (c : Call) → P w → P (record w { calls = c ∷ w.calls }))
      (clean_then : (w : World) → P w → IsClean w) where
    Goes-ask : (c : Call) → Goes P (λ b. P) (ask host c)
    unfolding ask
    Goes-ask c = record { at = λ w p. called w c p }

    Goes-fail : {A : Type 0} {Q : A → World → Type 0} (e : ResolverError) → Goes P Q (fail e)
    Goes-fail e = record { at = λ w p. clean_then w p }

    Goes-step : (c : Call) (e : ResolverError) → Goes P (λ u. P) (step host c e)
    unfolding step
    Goes-step c e =
        Goes-bind (Goes-ask c) (λ done. Goes-if done (record { at = λ w p. p }) (Goes-fail e))

    Goes-step_open : (c : Call) (e : ResolverError) → Goes P (λ u. P) (step_open host c e)
    unfolding step_open
    Goes-step_open c e = Goes-bind (Goes-ask c) (λ done.
        Goes-if done (record { at = λ w p. p })
          (Goes-bind {Q = λ b. P} (Goes-ask close_file) (λ b. Goes-fail e)))

  Goes-change :
      (f : Option Temporary → Option Temporary) (o : Option Temporary)
      → Goes (Has o) (λ u. Has (f o)) (change_temporary host f)
  unfolding change_temporary
  Goes-change f o = record { at = λ w p. (p.0, p.1, ap f p.2) }

  written : Text → Temporary
  written content = record { content = content; has_mode = true; synced = true }

  Goes-rename :
      (path content : Text)
      → Goes
          (Has (some (written content)))
          (λ u w. IsSettledBy before (replaced_at path (some content) before) doubtful (ok u) w)
          (rename_temporary host path)
  unfolding rename_temporary move_temporary written
  Goes-rename path content =
      Goes-bind {Q = λ b. Has (some (written content))}
        (Goes-ask (Has (some (written content))) (λ w c p. p) (λ w p. (p.0, p.1)) (rename_to path))
        (λ done.
          Goes-if done (record { at = λ w p. moved w w.temporary p.2 (p.0, p.1) })
            (Goes-fail (Has (some (written content))) (λ w c p. p) (λ w p. (p.0, p.1))
              not_installed))
    where
      moved :
          (w : World) (o : Option Temporary)
          → o ≡ some (written content)
          → IsClean w
          → Ends
              (λ u v. IsSettledBy before (replaced_at path (some content) before) doubtful (ok u) v)
              (move_temporary host path o w).0
              (move_temporary host path o w).1
      moved w none e c = cc
      moved w (some t) e c =
          subst
            (λ x.
              Ends
                (λ u v.
                  IsSettledBy before (replaced_at path (some content) before) doubtful (ok u) v)
                (move_temporary host path x w).0 (move_temporary host path x w).1)
            (sym e) (ap (replaced_at path (some content)) c.0, c.1, refl)

  Goes-step_on :
      (o : Option Temporary) (c : Call) (f : Temporary → Temporary)
      → Goes (Has o) (λ u. Has (on_temporary host f o)) (step_on host c f)
  unfolding step_on
  Goes-step_on o c f =
      Goes-bind {Q = λ u. Has o}
        (Goes-step_open (Has o) (λ w d p. p) (λ w p. (p.0, p.1)) c not_written)
        (λ u. Goes-change (on_temporary host f) o)

  Goes-fill :
      (path content : Text)
      → Goes
          (Has (some new_temporary))
          (λ u w. IsSettledBy before (replaced_at path (some content) before) doubtful (ok u) w)
          (fill_temporary host path content)
  unfolding fill_temporary written
  Goes-fill path content =
      let moded : Temporary = record new_temporary { has_mode = true } in
      let filled : Temporary = record moded { content = content } in
      Goes-bind {Q = λ u. Has (some moded)}
        (Goes-step_on (some new_temporary) set_mode (λ t. record t { has_mode = true }))
        (λ u.
          Goes-bind {Q = λ v. Has (some filled)}
            (Goes-step_on (some moded) write_content
              (λ t. record t { content = t.content ++ content; synced = false }))
            (λ v.
              Goes-bind {Q = λ x. Has (some (written content))}
                (Goes-step_on (some filled) sync_file (λ t. record t { synced = true }))
                (λ x.
                  Goes-bind {Q = λ y. Has (some (written content))}
                    (Goes-step (Has (some (written content))) (λ w c p. p) (λ w p. (p.0, p.1))
                      close_file not_written)
                    (λ y. Goes-rename path content))))

  module _ (path content : Text) where
    -- What the installed file leaves, or an error
    abbrev Settled : Result ResolverError (Unit {0}) → World → Type 0
    Settled r w = IsSettledBy before (replaced_at path (some content) before) doubtful r w

    Goes-settled :
        {P : World → Type 0} (m : Io (Unit {0}))
        → ((w : World) → P w → Settled (m w).0 (m w).1)
        → Goes P (λ u v. Settled (ok u) v) m
    Goes-settled m k = record { at = λ w p. to_end (m w).0 (m w).1 (k w p) }
      where
        to_end :
            (r : Result ResolverError (Unit {0})) (w : World)
            → Settled r w
            → Ends (λ u v. Settled (ok u) v) r w
        to_end (ok u) w q = q
        to_end (err e) w q = q

    settled :
        (r : Result ResolverError (Unit {0})) (w : World)
        → Ends (λ u v. Settled (ok u) v) r w
        → Settled r w
    settled (ok u) w q = q
    settled (err e) w q = q

    removed :
        (gone : Bool) (r : Result ResolverError (Unit {0})) (w : World)
        → Ends (λ u v. Settled (ok u) v) r w
        → Settled r (record w {
          calls = remove_temporary ∷ w.calls;
          temporary = if gone then none else w.temporary;
        })
    removed true (ok u) w p = (p.0, p.1, refl)
    removed false (ok u) w p = p
    removed gone (err e) w p = p

    -- The temporary file is removed whatever came of the rest.
    closing :
        (m : Io (Unit {0}))
        → Goes (Has (some new_temporary)) (λ u w. Settled (ok u) w) m
        → (w : World) → Has (some new_temporary) w
        → Settled
            ((attempt m >>= λ r. ask host remove_temporary >>= λ gone.
                change_temporary host (λ o. if gone then none else o) >> lift r)
              w).0
            ((attempt m >>= λ r. ask host remove_temporary >>= λ gone.
                change_temporary host (λ o. if gone then none else o) >> lift r)
              w).1
    unfolding ◌>>=◌ ask change_temporary
    closing m k w p = removed (host (m w).1.calls remove_temporary) (m w).0 (m w).1 (k.at w p)

    Goes-install : Goes IsClean (λ u v. Settled (ok u) v) (install host path content)
    unfolding install
    Goes-install =
        Goes-bind {Q = λ u. IsClean}
          (Goes-step IsClean (λ w c p. p) (λ w p. p) create_temporary not_written)
          (λ u. Goes-bind {Q = λ v. Has (some new_temporary)} fresh (λ v.
            Goes-settled _ (closing (fill_temporary host path content) (Goes-fill path content))))
      where
        fresh :
            Goes IsClean
              (λ v. Has (some new_temporary))
              (change_temporary host (λ o. some new_temporary))
        fresh = record { at = λ w p. (p.0, p.1, refl) }

  Goes-read_file : (path : Text) → Goes IsClean (λ o. IsClean) (read_file_at host path)
  unfolding read_file_at
  Goes-read_file path =
      Goes-bind {Q = λ b. IsClean} (Goes-ask IsClean (λ w c p. p) (λ w p. p) (read_file path))
        (λ done.
          Goes-if done (record { at = λ w p. p })
            (Goes-fail IsClean (λ w c p. p) (λ w p. p) not_read))

  Goes-require_ours : (o : Option Text) → Goes IsClean (λ u. IsClean) (require_ours host o)
  unfolding require_ours
  Goes-require_ours none = record { at = λ w p. p }
  Goes-require_ours (some body) =
      Goes-if (is_managed_resolver_file body) (record { at = λ w p. p })
        (Goes-fail IsClean (λ w c p. p) (λ w p. p) not_ours)

  Goes-write :
      (path domain : Text) (nameservers : List Text)
      → Goes IsClean
          (λ u v. Settled path (resolver_file_content domain nameservers) (ok u) v)
          (write_managed_resolver_file host path domain nameservers)
  unfolding write_managed_resolver_file
  Goes-write path domain nameservers =
      Goes-bind {Q = λ u. IsClean}
        (Goes-lift IsClean (check_request host path domain nameservers) (λ w p. p))
        (λ u.
          Goes-bind {Q = λ v. IsClean}
            (Goes-step IsClean (λ w c p. p) (λ w p. p) make_directory not_created)
            (λ v. Goes-bind {Q = λ o. IsClean} (Goes-read_file path) (λ o.
              Goes-bind {Q = λ x. IsClean} (Goes-require_ours o)
                (λ x. Goes-install path (resolver_file_content domain nameservers)))))

pub write_managed_resolver_file-atomic :
    (host : List Call → Call → Bool) (path domain : Text) (nameservers : List Text) (w : World)
    → IsSettledBy w.disk
        (replaced_at path (some (resolver_file_content domain nameservers)) w.disk)
        w.doubtful
        (write_managed_resolver_file host path domain nameservers w).0
        (write_managed_resolver_file host path domain nameservers w).1
write_managed_resolver_file-atomic host path domain nameservers w =
    settled host w.disk w.doubtful path (resolver_file_content domain nameservers) _ _
      ((Goes-write host w.disk w.doubtful path domain nameservers).at w (refl, refl))

content_is_managed :
    (domain : Text) (nameservers : List Text)
    → is_managed_resolver_file (resolver_file_content domain nameservers) ≡ true
unfolding is_managed_resolver_file resolver_file_content cut trim_space
content_is_managed domain nameservers = refl

-- What a write put at its path is recognised as a managed file with that very content, as long as it can
-- be read.
pub managed_resolver_file_matches-write :
    (host : List Call → Call → Bool) (path domain : Text) (nameservers : List Text) (w : World)
    → (write_managed_resolver_file host path domain nameservers w).0 ≡ ok tt
    → host (write_managed_resolver_file host path domain nameservers w).1.calls (read_file path)
      ≡ true
    → (managed_resolver_file_matches host path domain nameservers
        (write_managed_resolver_file host path domain nameservers w).1).0
      ≡ ok true
unfolding managed_resolver_file_matches read_file_at ◌>>=◌ ask replaced_at
managed_resolver_file_matches-write host path domain nameservers w e readable =
    let content = resolver_file_content domain nameservers in
    let settled = write_managed_resolver_file-atomic host path domain nameservers w in
    let after =
      subst
        (λ r.
          IsSettledBy w.disk (replaced_at path (some content) w.disk) w.doubtful r
            (write_managed_resolver_file host path domain nameservers w).1)
        e settled in
    let there : (write_managed_resolver_file host path domain nameservers w).1.disk path
        ≡ some content =
      ap (λ d. d path) after.0 ∙ ground (arith, same_refl path) in
    rw (readable, there) (ground (arith, content_is_managed domain nameservers, same_refl content))
