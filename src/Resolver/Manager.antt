-- ===== src/Resolver/Manager.antt =====
-- The resolver of a session (pkg/maclet/dns_resolver.go): discoverClusterDNSNameservers, reconcile,
-- cleanup, and the privileged helper, which the program starts as a process of its own; the flags that
-- it is given are taken as read.
pub mod Agreement
use maclet.Prelude.{
  ℕ, Bool, true, false, not, ◌||◌, ◌&&◌, Option, none, some, List, [], ◌∷◌, ◌==◌, text_eq_instance,
  if◌then◌else◌, Result, ok, err,
}
use maclet.Prelude.Exec.{Exec, pure, fail, lift, attempt}
use maclet.Prelude.Exec.Bind.{◌>>=◌, ◌>>◌}
use maclet.Prelude.Text.{Text, codes}
use maclet.Resolver.{default_domain, default_path, valid_nameservers, same_strings}
use maclet.Resolver.Files.{
  Call, get_service, run_helper, ResolverError, no_nameserver, helper_failed, not_discovered,
  bad_arguments, World, Io, is_nil, ask, write_managed_resolver_file, managed_resolver_file_matches,
  remove_managed_resolver_file,
}

-- clusterDNSResolver
pub record Resolver : Type 0 where
  pub path : Text
  pub domain : Text
  pub use_sudo : Bool
  pub nameservers : List Text
  pub fallback_nameservers : List Text
  pub fallback_active : Bool
  pub owned : Bool

-- The addresses of the Service of the cluster's DNS
pub record Service : Type 0 where
  pub cluster_ips : List Text
  pub cluster_ip : Text

unfoldable pub new_resolver : Bool → List Text → Resolver
unfolding valid_nameservers
new_resolver use_sudo fallback = record {
  path = default_path;
  domain = default_domain;
  use_sudo = use_sudo;
  nameservers = [];
  fallback_nameservers = valid_nameservers fallback;
  fallback_active = false;
  owned = false;
}

unfoldable pub candidates_of : Service → List Text
candidates_of s =
    if is_nil s.cluster_ips && not (s.cluster_ip == []) then s.cluster_ip ∷ [] else s.cluster_ips

-- What the API server answers at this point, none for any error
module _ (host : List Call → Call → Bool) (service : List Call → Option Service) where
  unfoldable pub usable : Option Service → Result ResolverError (List Text)
  unfolding candidates_of valid_nameservers
  usable none = err not_discovered
  usable (some s) =
      let found = valid_nameservers (candidates_of s) in
      if is_nil found then err not_discovered else ok found

  unfoldable pub discover_nameservers : Io (List Text)
  unfolding ask usable
  discover_nameservers = ask host get_service >>= λ done. λ w. (usable (service w.calls), w)

  -- resolverHelperCommand
  unfoldable pub resolver_helper : Bool → List Text → Io (Unit {0})
  unfolding write_managed_resolver_file remove_managed_resolver_file
  resolver_helper remove nameservers =
      if remove
      then (if is_nil nameservers
          then remove_managed_resolver_file host default_path
          else fail bad_arguments)
      else write_managed_resolver_file host default_path default_domain nameservers

  abbrev pub as_helper_error : Result ResolverError (Unit {0}) → Result ResolverError (Unit {0})
  as_helper_error (ok u) = ok u
  as_helper_error (err e) = err helper_failed

  -- runResolverHelper
  unfoldable pub run_resolver_helper : Bool → List Text → Io (Unit {0})
  unfolding ask resolver_helper
  run_resolver_helper remove nameservers = do
    started ← ask host run_helper
    if started then pure tt else fail helper_failed
    result ← attempt (resolver_helper remove nameservers)
    lift (as_helper_error result)

  unfoldable pub write_resolver : Resolver → List Text → Io (Unit {0})
  unfolding run_resolver_helper write_managed_resolver_file
  write_resolver r nameservers =
      if r.use_sudo
      then run_resolver_helper false nameservers
      else write_managed_resolver_file host r.path r.domain nameservers

  -- The nameservers of a tick: those discovered, or those of the configuration
  unfoldable pub chosen :
      Resolver → Result ResolverError (List Text) → Result ResolverError (Resolver × List Text)
  chosen r (ok found) = ok (record r { fallback_active = false }, found)
  chosen r (err e) =
      if is_nil r.fallback_nameservers
      then err e
      else ok (record r { fallback_active = true }, r.fallback_nameservers)

  unfoldable pub is_current : Resolver → List Text → Io Bool
  unfolding same_strings managed_resolver_file_matches
  is_current r nameservers =
      if same_strings r.nameservers nameservers && r.owned
      then managed_resolver_file_matches host r.path r.domain nameservers
      else pure false

  unfoldable pub publish : Resolver → List Text → Io Resolver
  unfolding is_current write_resolver
  publish r nameservers = is_current r nameservers >>= λ current.
      if current
      then pure r
      else write_resolver r nameservers
        >> pure (record r { nameservers = nameservers; owned = true })

  abbrev pub settled :
      Resolver → Result ResolverError Resolver → Resolver × Result ResolverError (Unit {0})
  settled r (ok r') = (r', ok tt)
  settled r (err e) = (r, err e)

  unfoldable pub after_choice :
      Resolver
      → Result ResolverError (Resolver × List Text)
      → Io (Resolver × Result ResolverError (Unit {0}))
  unfolding publish
  after_choice r (err e) = pure (r, err e)
  after_choice r (ok (r', nameservers)) =
      attempt (publish r' nameservers) >>= λ result. pure (settled r' result)

  -- The resolver comes back beside the error of a tick.
  unfoldable pub reconcile : Resolver → Io (Resolver × Result ResolverError (Unit {0}))
  unfolding discover_nameservers chosen after_choice
  reconcile r = attempt discover_nameservers >>= λ found. after_choice r (chosen r found)

  unfoldable pub cleanup : Resolver → Io Resolver
  unfolding run_resolver_helper remove_managed_resolver_file
  cleanup r =
      if not r.owned
      then pure r
      else (if r.use_sudo
          then run_resolver_helper true []
          else remove_managed_resolver_file host r.path)
        >> pure (record r { owned = false; nameservers = [] })
