-- ===== src/Resolver/Files.antt =====
-- The files of the resolver (pkg/maclet/dns_resolver.go): writeManagedResolverFile,
-- managedResolverFileMatches and removeManagedResolverFile. The disk maps a path to what its file
-- holds, but for the temporary file, which has a name of its own and stands beside it. Whether a call succeeds may
-- depend on all calls made so far, which are kept newest first.
pub mod Foreign
pub mod Installed
use maclet.Prelude.{
  ℕ, Bool, true, false, not, ◌||◌, ◌&&◌, Option, none, some, List, [], ◌∷◌, ◌++◌, ◌==◌, text_eq,
  text_eq_instance, if◌then◌else◌, Result, ok, err,
}
use maclet.Prelude.Exec.{Exec, pure, fail, lift, attempt, gets}
use maclet.Prelude.Exec.Bind.{◌>>=◌, ◌>>◌}
use maclet.Prelude.Text.{Text}
use maclet.Go.Paths.{is_abs}
use maclet.Resolver.{is_managed_resolver_file, resolver_file_content, is_ip}

pub data Call : Type 0 where
  make_directory create_temporary set_mode write_content sync_file close_file : Call
  remove_temporary run_helper get_service : Call
  read_file rename_to remove_file : Text → Call

pub data ResolverError : Type 0 where
  relative_path no_domain no_nameserver bad_nameserver not_created not_ours not_read : ResolverError
  not_written not_installed not_removed helper_failed not_discovered bad_arguments : ResolverError

-- A temporary file: what was written to it, and whether it has its mode and was synced
pub record Temporary : Type 0 where
  pub content : Text
  pub has_mode : Bool
  pub synced : Bool

abbrev pub new_temporary : Temporary
new_temporary = record { content = []; has_mode = false; synced = false }

-- The temporary file made last, while it exists, and the paths that got a file without its mode or
-- before it was synced
pub record World : Type 0 where
  pub disk : Text → Option Text
  pub temporary : Option Temporary
  pub doubtful : List Text
  pub calls : List Call

abbrev pub Io : Type 0 → Type 0
Io A = Exec ResolverError World A

abbrev pub all_ips : List Text → Bool
all_ips [] = true
all_ips (n ∷ ns) = is_ip n && all_ips ns

abbrev pub is_nil {ℓ} : {A : Type ℓ} → List A → Bool
is_nil [] = true
is_nil (x ∷ xs) = false

unfoldable pub replaced_at : Text → Option Text → (Text → Option Text) → Text → Option Text
replaced_at path content disk q = if text_eq path q then content else disk q

module _ (host : List Call → Call → Bool) where
  unfoldable pub ask : Call → Io Bool
  ask c w = (ok (host w.calls c), record w { calls = c ∷ w.calls })

  unfoldable pub put_file : Text → Option Text → Io (Unit {0})
  unfolding replaced_at
  put_file path content w = (ok tt, record w { disk = replaced_at path content w.disk })

  unfoldable pub step : Call → ResolverError → Io (Unit {0})
  unfolding ask
  step c e = ask c >>= λ done. if done then pure tt else fail e

  -- A step on the open temporary file, which is closed when the step fails
  unfoldable pub step_open : Call → ResolverError → Io (Unit {0})
  unfolding ask
  step_open c e = ask c >>= λ done. if done then pure tt else (ask close_file >> fail e)

  -- os.ReadFile, with none for a file that is not there
  unfoldable pub read_file_at : Text → Io (Option Text)
  unfolding ask
  read_file_at path =
      ask (read_file path) >>= λ done. if done then gets (λ w. w.disk path) else fail not_read

  unfoldable pub change_temporary : (Option Temporary → Option Temporary) → Io (Unit {0})
  change_temporary f w = (ok tt, record w { temporary = f w.temporary })

  abbrev pub on_temporary : (Temporary → Temporary) → Option Temporary → Option Temporary
  on_temporary f none = none
  on_temporary f (some t) = some (f t)

  abbrev pub with_doubt : Text → Temporary → List Text → List Text
  with_doubt path t ps = if t.has_mode && t.synced then ps else path ∷ ps

  -- The temporary file takes the place of what is at the path.
  unfoldable pub move_temporary : Text → Option Temporary → Io (Unit {0})
  unfolding replaced_at
  move_temporary path none w = (err not_installed, w)
  move_temporary path (some t) w = (
    ok tt,
    record w {
      disk = replaced_at path (some t.content) w.disk;
      temporary = none;
      doubtful = with_doubt path t w.doubtful;
    },
  )

  unfoldable pub rename_temporary : Text → Io (Unit {0})
  unfolding ask move_temporary
  rename_temporary path = ask (rename_to path) >>= λ done.
      if done then (λ w. move_temporary path w.temporary w) else fail not_installed

  -- A step on the open temporary file, with what it does to the file
  unfoldable pub step_on : Call → (Temporary → Temporary) → Io (Unit {0})
  unfolding step_open change_temporary
  step_on c f = step_open c not_written >>= λ u. change_temporary (on_temporary f)

  unfoldable pub fill_temporary : Text → Text → Io (Unit {0})
  unfolding step step_on rename_temporary
  fill_temporary path content = do
    step_on set_mode (λ t. record t { has_mode = true })
    step_on write_content (λ t. record t { content = t.content ++ content; synced = false })
    step_on sync_file (λ t. record t { synced = true })
    step close_file not_written
    rename_temporary path

  -- The temporary file is removed at the end, whatever happened, and it stays if that fails.
  unfoldable pub install : Text → Text → Io (Unit {0})
  unfolding step fill_temporary ask change_temporary
  install path content = do
    step create_temporary not_written
    change_temporary (λ o. some new_temporary)
    result ← attempt (fill_temporary path content)
    removed ← ask remove_temporary
    change_temporary (λ o. if removed then none else o)
    lift result

  -- A file that is there and is none of ours ends the operation.
  unfoldable pub require_ours : Option Text → Io (Unit {0})
  unfolding is_managed_resolver_file
  require_ours none = pure tt
  require_ours (some body) = if is_managed_resolver_file body then pure tt else fail not_ours

  unfoldable pub check_request : Text → Text → List Text → Result ResolverError (Unit {0})
  unfolding is_abs
  check_request path domain nameservers =
      if path == [] || not (is_abs path)
      then err relative_path
      else if domain == []
      then err no_domain
      else if is_nil nameservers
      then err no_nameserver
      else if all_ips nameservers
      then ok tt
      else err bad_nameserver

  unfoldable pub write_managed_resolver_file : Text → Text → List Text → Io (Unit {0})
  unfolding check_request step read_file_at require_ours install resolver_file_content
  write_managed_resolver_file path domain nameservers = do
    lift (check_request path domain nameservers)
    step make_directory not_created
    existing ← read_file_at path
    require_ours existing
    install path (resolver_file_content domain nameservers)

  abbrev pub same_content : Text → Text → List Text → Option Text → Bool
  same_content path domain nameservers none = false
  same_content path domain nameservers (some body) =
      is_managed_resolver_file body && text_eq body (resolver_file_content domain nameservers)

  unfoldable pub managed_resolver_file_matches : Text → Text → List Text → Io Bool
  unfolding read_file_at is_managed_resolver_file resolver_file_content
  managed_resolver_file_matches path domain nameservers =
      read_file_at path >>= λ body. pure (same_content path domain nameservers body)

  -- os.Remove: a file that is not there is no error here.
  unfoldable pub delete_file : Text → Io (Unit {0})
  unfolding ask put_file
  delete_file path =
      ask (remove_file path) >>= λ done. if done then put_file path none else fail not_removed

  unfoldable pub remove_if_ours : Text → Option Text → Io (Unit {0})
  unfolding delete_file is_managed_resolver_file
  remove_if_ours path none = pure tt
  remove_if_ours path (some body) =
      if is_managed_resolver_file body then delete_file path else pure tt

  unfoldable pub remove_managed_resolver_file : Text → Io (Unit {0})
  unfolding read_file_at remove_if_ours
  remove_managed_resolver_file path = read_file_at path >>= remove_if_ours path
