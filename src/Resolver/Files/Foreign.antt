-- ===== src/Resolver/Files/Foreign.antt =====
-- A resolver file of others (pkg/maclet/dns_resolver.go): no operation changes or removes it.
mod Tests
use maclet.Prelude.{
  ℕ, ◌≡◌, refl, sym, ap, ◌∙◌, Bool, true, false, not, ◌||◌, ◌&&◌, Option, none, some, List, [], ◌∷◌,
  arith, text_eq, text_eq_iff, ◌==◌, text_eq_instance, if◌then◌else◌, Result, ok, err, Bool-cases,
  inl, inr,
}
use maclet.Prelude.Exec.{pure, fail, lift, attempt}
use maclet.Prelude.Exec.Bind.{◌>>=◌, ◌>>◌}
use maclet.Prelude.Exec.Keeps.{
  Anything, OnOk, Ensures, Ensures-pure, Ensures-fail, Ensures-read as Ensures-read_state,
  Ensures-if, Ensures-bind, Ensures-next, Ensures-attempt, Ensures-lift,
}
use maclet.Prelude.Text.{Text}
use maclet.Resolver.{is_managed_resolver_file, resolver_file_content}
use maclet.Resolver.Files.{
  on_temporary, step_on, Call, make_directory, create_temporary, set_mode, write_content, sync_file,
  close_file, remove_temporary, read_file, rename_to, remove_file, ResolverError, not_created,
  not_written, not_read, not_ours, not_installed, not_removed, World, Io, replaced_at, put_file,
  ask, step, step_open, read_file_at, Temporary, new_temporary, change_temporary, move_temporary,
  rename_temporary, fill_temporary, install, require_ours, check_request,
  write_managed_resolver_file, managed_resolver_file_matches, delete_file, remove_if_ours,
  remove_managed_resolver_file,
}

-- What does not touch the disk keeps each statement about it.
module _ (host : List Call → Call → Bool) {P : World → Type 0}
    (called : (w : World) (c : Call) → P w → P (record w { calls = c ∷ w.calls })) where
  pub Ensures-ask : (c : Call) → Ensures P Anything (ask host c)
  unfolding ask
  Ensures-ask c = record { at = λ w p. (called w c p, tt) }

  pub Ensures-step : (c : Call) (e : ResolverError) → Ensures P Anything (step host c e)
  unfolding step
  Ensures-step c e =
      Ensures-bind (Ensures-ask c)
        (λ done u. Ensures-if {b = done} (λ x. Ensures-pure tt tt) (λ x. Ensures-fail e))

  pub Ensures-step_open : (c : Call) (e : ResolverError) → Ensures P Anything (step_open host c e)
  unfolding step_open
  Ensures-step_open c e = Ensures-bind (Ensures-ask c) (λ done u.
      Ensures-if {b = done} (λ x. Ensures-pure tt tt)
        (λ x. Ensures-next (Ensures-ask close_file) (Ensures-fail e)))

  pub Ensures-require_ours : (o : Option Text) → Ensures P Anything (require_ours host o)
  unfolding require_ours
  Ensures-require_ours none = Ensures-pure tt tt
  Ensures-require_ours (some body) =
      Ensures-if {b = is_managed_resolver_file body} (λ x. Ensures-pure tt tt) (λ x. Ensures-fail _)

  pub Ensures-matches :
      (path domain : Text) (nameservers : List Text)
      → Ensures P Anything (managed_resolver_file_matches host path domain nameservers)
  unfolding managed_resolver_file_matches read_file_at
  Ensures-matches path domain nameservers =
      Ensures-bind {Q = Anything}
        (Ensures-bind (Ensures-ask (read_file path)) (λ done u.
          Ensures-if {b = done} (λ x. Ensures-read_state (λ w. w.disk path) (λ w p. tt))
            (λ x. Ensures-fail not_read)))
        (λ body u. Ensures-pure _ tt)

module _ (host : List Call → Call → Bool) (q body : Text)
    (foreign : is_managed_resolver_file body ≡ false) where
  -- The file at `q` is that of others.
  abbrev pub IsForeign : World → Type 0
  IsForeign w = w.disk q ≡ some body

  called : (w : World) (c : Call) → IsForeign w → IsForeign (record w { calls = c ∷ w.calls })
  called w c p = p

  -- What reading a path shows if it is that path
  abbrev IsRead : Text → Option Text → Type 0
  IsRead path o = text_eq path q ≡ true → o ≡ some body

  Ensures-IsRead : (path : Text) → Ensures IsForeign (IsRead path) (read_file_at host path)
  unfolding read_file_at
  Ensures-IsRead path = Ensures-bind (Ensures-ask host called (read_file path)) (λ done u.
      Ensures-if {b = done}
        (λ x.
          Ensures-read_state (λ w. w.disk path) (λ w p e. ap w.disk ((text_eq_iff path q).0 e) ∙ p))
        (λ x. Ensures-fail not_read))

  Ensures-put_file :
      (path : Text) (content : Option Text)
      → text_eq path q ≡ false
      → Ensures IsForeign Anything (put_file host path content)
  unfolding put_file replaced_at
  Ensures-put_file path content other = record { at = λ w p. (ground (arith, other, p), tt) }

  Ensures-require :
      (path : Text) (o : Option Text)
      → IsRead path o
      → Ensures IsForeign (λ u. text_eq path q ≡ false) (require_ours host o)
  unfolding require_ours
  Ensures-require path none r = Ensures-pure tt (ground (arith, r))
  Ensures-require path (some b) r =
      Ensures-if {b = is_managed_resolver_file b}
        (λ x. Ensures-pure tt (ground (arith, r, x, foreign))) (λ x. Ensures-fail not_ours)

  Ensures-change :
      (f : Option Temporary → Option Temporary)
      → Ensures IsForeign Anything (change_temporary host f)
  unfolding change_temporary
  Ensures-change f = record { at = λ w p. (p, tt) }

  Ensures-rename :
      (path : Text)
      → text_eq path q ≡ false
      → Ensures IsForeign Anything (rename_temporary host path)
  unfolding rename_temporary move_temporary replaced_at
  Ensures-rename path other = Ensures-bind (Ensures-ask host called (rename_to path)) (λ done u.
      Ensures-if {b = done} (λ x. record { at = λ w p. moved w w.temporary p })
        (λ x. Ensures-fail not_installed))
    where
      moved :
          (w : World) (o : Option Temporary)
          → IsForeign w
          → IsForeign (move_temporary host path o w).1
            × OnOk Anything (move_temporary host path o w).0
      moved w none p = (p, tt)
      moved w (some t) p = (ground (arith, other, p), tt)

  Ensures-step_on :
      (c : Call) (f : Temporary → Temporary) → Ensures IsForeign Anything (step_on host c f)
  unfolding step_on
  Ensures-step_on c f =
      Ensures-next (Ensures-step_open host called c not_written)
        (Ensures-change (on_temporary host f))

  Ensures-install :
      (path content : Text)
      → text_eq path q ≡ false
      → Ensures IsForeign Anything (install host path content)
  unfolding install fill_temporary
  Ensures-install path content other =
      Ensures-next (Ensures-step host called create_temporary not_written) (
        Ensures-next (Ensures-change (λ o. some new_temporary)) (
          Ensures-bind
            (Ensures-attempt (
              Ensures-next (Ensures-step_on set_mode _) (
                Ensures-next (Ensures-step_on write_content _) (
                  Ensures-next (Ensures-step_on sync_file _) (
                    Ensures-next (Ensures-step host called close_file not_written)
                      (Ensures-rename path other))))))
            (λ result u.
              Ensures-bind (Ensures-ask host called remove_temporary)
                (λ removed v. Ensures-next (Ensures-change _) (Ensures-lift result)))))

  pub Ensures-write :
      (path domain : Text) (nameservers : List Text)
      → Ensures IsForeign Anything (write_managed_resolver_file host path domain nameservers)
  unfolding write_managed_resolver_file
  Ensures-write path domain nameservers =
      Ensures-next (Ensures-lift (check_request host path domain nameservers)) (
        Ensures-next (Ensures-step host called make_directory not_created) (
          Ensures-bind (Ensures-IsRead path) (λ o r.
            Ensures-bind (Ensures-require path o r)
              (λ u other. Ensures-install path (resolver_file_content domain nameservers) other))))

  Ensures-remove_if_ours :
      (path : Text) (o : Option Text)
      → IsRead path o
      → Ensures IsForeign Anything (remove_if_ours host path o)
  unfolding remove_if_ours delete_file
  Ensures-remove_if_ours path none r = Ensures-pure tt tt
  Ensures-remove_if_ours path (some b) r =
      Ensures-if {b = is_managed_resolver_file b}
        (λ x. Ensures-bind (Ensures-ask host called (remove_file path)) (λ done u.
          Ensures-if {b = done} (λ y. Ensures-put_file path none (ground (arith, r, x, foreign)))
            (λ y. Ensures-fail not_removed)))
        (λ x. Ensures-pure tt tt)

  pub Ensures-remove :
      (path : Text) → Ensures IsForeign Anything (remove_managed_resolver_file host path)
  unfolding remove_managed_resolver_file
  Ensures-remove path = Ensures-bind (Ensures-IsRead path) (λ o r. Ensures-remove_if_ours path o r)
