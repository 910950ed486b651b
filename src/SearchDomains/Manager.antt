-- ===== src/SearchDomains/Manager.antt =====
-- clusterDNSSearchDomains (pkg/maclet/dns_search_domains.go). The host is an oracle: what it answers
-- may depend on all calls made so far, which are kept newest first.
pub mod Etiquette
mod Tests
use maclet.Prelude.{
  ℕ, Bool, true, false, not, ◌||◌, ◌&&◌, Option, none, some, List, [], ◌∷◌, ◌++◌, ◌==◌,
  text_eq_instance, contains, list_eq, if◌then◌else◌, Result, ok, err,
}
use maclet.Prelude.Exec.{Exec, pure, fail, lift, gets, modify, attempt, ◌>>=◌, ◌>>◌}
use maclet.Prelude.Text.{Text, codes, trim_space}
use maclet.SearchDomains.Lists.{
  default_search_domains, normalize_search_domains, foreign, ours, search_domains_args,
}
use maclet.SearchDomains.Parsers.{
  parse_search_domains, parse_effective_search_domains, parse_network_service_device,
}

pub data SearchError : Type 0 where
  no_device list_failed no_service read_failed set_failed scutil_failed : SearchError

pub record Manager : Type 0 where
  pub domains : List Text
  pub device : Text
  pub service : Text
  pub owned : Bool
  pub foreign : List Text
  pub foreign_logged : Bool
  pub verified : Bool
  pub resolved_device : Text

-- A command with its arguments; the Boolean asks for privileges.
pub data Call : Type 0 where
  networksetup : Bool → List Text → Call
  scutil : List Text → Call

pub record World : Type 0 where
  pub manager : Manager
  pub calls : List Call

abbrev pub Run : Type 0 → Type 0
Run A = Exec SearchError World A

abbrev pub is_empty {ℓ} : {A : Type ℓ} → List A → Bool
is_empty [] = true
is_empty (x ∷ xs) = false

abbrev pub subset : List Text → List Text → Bool
subset [] ys = true
subset (x ∷ xs) ys = contains ys x && subset xs ys

-- newClusterDNSSearchDomains
unfoldable pub new_manager : (ℕ → ℕ) → Text → Text → List Text → Manager
new_manager table device service domains = record {
  domains =
      normalize_search_domains table (if is_empty domains then default_search_domains else domains);
  device = device;
  service = trim_space service;
  owned = false;
  foreign = [];
  foreign_logged = false;
  verified = false;
  resolved_device = [];
}

-- An answer is the output of a command that succeeded.
module _ (table : ℕ → ℕ) (host : List Call → Call → Option Text) where
  -- Runs a command, with the error that its failure is reported as.
  run : SearchError → Call → Run Text
  run e c w = elim (host w.calls c) [
    | none ↦ (err e, record w { calls = c ∷ w.calls })
    | some out ↦ (ok out, record w { calls = c ∷ w.calls })
  ]

  set : (Manager → Manager) → Run (Unit {0})
  set f w = (ok tt, record w { manager = f w.manager })

  found_service : Text → Text → Run (Unit {0})
  found_service device [] = fail no_service
  found_service device (c ∷ s) = set λ m. record m { service = c ∷ s; resolved_device = device }

  pub resolve_service : Run (Unit {0})
  resolve_service w =
      if not (is_empty w.manager.service)
      then (ok tt, w)
      else if is_empty w.manager.device
      then (err no_device, w)
      else (run list_failed (networksetup false (codes "-listnetworkserviceorder" ∷ [])) >>= λ out.
            found_service w.manager.device (parse_network_service_device out w.manager.device))
          w

  pub search_domains : Run (List Text)
  search_domains w =
      (run read_failed (networksetup false (codes "-getsearchdomains" ∷ w.manager.service ∷ []))
          >>= λ out. pure (parse_search_domains table out))
        w

  pub apply : List Text → Run (Unit {0})
  apply ds w =
      (run set_failed (networksetup true (search_domains_args w.manager.service ds)) >> pure tt) w

  effective_search_domains : Run (List Text)
  effective_search_domains = do
    out ← run scutil_failed (scutil (codes "--dns" ∷ []))
    pure (parse_effective_search_domains table out)

  -- Whether each domain is in the list that macOS uses
  pub verify : Run Bool
  verify = do
    effective ← effective_search_domains
    m ← gets (λ w. w.manager)
    pure (subset m.domains effective)

  release : List Text → Run (Unit {0})
  release others = do apply others; set (λ m. record m { owned = false; foreign = [] })

  live : Result SearchError Bool → Bool
  live (ok b) = b
  live (err e) = false

  -- The list is written, then what macOS made of it is noted; a failed check is only logged.
  publish : Run (Unit {0})
  publish = do
    m ← gets (λ w. w.manager)
    apply m.domains
    set (λ m. record m { owned = true; foreign = [] })
    r ← attempt verify
    set (λ m. record m { verified = live r })

  -- What reconcile does once it has read the current list
  react : List Text → Run (Unit {0})
  react current w =
      let others = foreign table current w.manager.domains in
      if not (is_empty others)
      then (if w.manager.owned
          then release others w
          else (ok tt, record w { manager = record w.manager { foreign_logged = true } }))
      else if w.manager.owned && list_eq current w.manager.domains
      then (ok tt, w)
      else publish w

  pub reconcile : Run (Unit {0})
  reconcile w =
      if is_empty w.manager.domains
      then (ok tt, w)
      else (do resolve_service; current ← search_domains; react current) w

  restore : List Text → Run (Unit {0})
  restore current w =
      release
        (normalize_search_domains table
          (w.manager.foreign ++ foreign table current w.manager.domains))
        w

  pub cleanup : Run (Unit {0})
  cleanup w =
      if w.manager.owned
      then (do resolve_service; current ← search_domains; restore current) w
      else (ok tt, w)
