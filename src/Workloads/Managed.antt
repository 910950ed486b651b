-- ===== src/Workloads/Managed.antt =====
-- The workloads that the manager keeps (pkg/maclet/workload_manager.go) and the ones that it retains
-- for their logs (pkg/maclet/workload_logs.go). A map from UIDs is a list in some order of iteration.
pub mod Retention
use maclet.Prelude.{
  ℕ, ◌+◌, Bool, true, false, not, ◌||◌, ◌&&◌, Option, none, some, List, [], ◌∷◌, eqb, ltb, leb,
  ◌==◌, text_eq, text_eq_instance, if◌then◌else◌, Result, ok, err,
}
use maclet.Prelude.Text.{Text}
use maclet.Go.Numbers.{ℤ}
use maclet.Nfs.Mount.{MountRecord}

-- A time that was never set is `none`.
pub record Managed : Type 0 where
  pub uid : Text
  pub namespace : Text
  pub name : Text
  pub pod_container_name : Text
  pub container_name : Text
  pub ip : Text
  pub restart_count : ℤ
  pub volume_paths : List Text
  pub host_network : Bool
  pub retained : Bool
  pub log_file : Text
  pub log_expires_at : Option ℕ
  pub nfs_mounts : List MountRecord
  pub retry_after : Option ℕ

pub record Manager : Type 0 where
  pub workloads : List Managed
  pub kept : List Managed

unfoldable pub find : Text → List Managed → Option Managed
find uid [] = none
find uid (w ∷ ws) = if text_eq w.uid uid then some w else find uid ws

-- delete of a key
unfoldable pub drop_uid : Text → List Managed → List Managed
drop_uid uid [] = []
drop_uid uid (w ∷ ws) = let rest = drop_uid uid ws in if text_eq w.uid uid then rest else w ∷ rest

-- An assignment to the key that is the workload's UID
unfoldable pub put : Managed → List Managed → List Managed
unfolding drop_uid
put w ws = w ∷ drop_uid w.uid ws

-- In seconds
abbrev pub default_retention : ℕ
default_retention = 86400

-- `log_ttl` is the configured period, 0 for none.
unfoldable pub retention : ℕ → ℕ
retention log_ttl = if eqb log_ttl 0 then default_retention else log_ttl

unfoldable pub expiry : ℕ → ℕ → Option ℕ → Option ℕ
unfolding retention
expiry log_ttl now none = some (now + retention log_ttl)
expiry log_ttl now (some t) = some t

unfoldable pub as_retained : ℕ → ℕ → Managed → Managed
unfolding expiry
as_retained log_ttl now w = record w {
  retained = true;
  ip = [];
  volume_paths = [];
  nfs_mounts = [];
  log_expires_at = expiry log_ttl now w.log_expires_at;
}

-- retainWorkloadLocked
unfoldable pub retain_workload : ℕ → ℕ → Managed → Manager → Manager
unfolding as_retained put drop_uid
retain_workload log_ttl now w m = record {
  workloads = drop_uid w.uid m.workloads;
  kept = put (as_retained log_ttl now w) m.kept;
}

unfoldable pub is_expired : ℕ → Option ℕ → Bool
is_expired now none = false
is_expired now (some t) = leb t now

unfoldable pub unexpired : ℕ → List Managed → List Managed
unfolding is_expired
unexpired now [] = []
unexpired now (w ∷ ws) =
    let rest = unexpired now ws in if is_expired now w.log_expires_at then rest else w ∷ rest

unfoldable pub any_expired : ℕ → List Managed → Bool
unfolding is_expired
any_expired now [] = false
any_expired now (w ∷ ws) = is_expired now w.log_expires_at || any_expired now ws

-- pruneRetainedLogsLocked: whether it changed something, and what is left
unfoldable pub prune_retained_logs : ℕ → Manager → Bool × Manager
unfolding unexpired any_expired
prune_retained_logs now m = (any_expired now m.kept, record m { kept = unexpired now m.kept })

pub data FindError : Type 0 where
  not_managed not_found : FindError

unfoldable pub find_in :
    Text → Text → Text → List Managed → Result FindError Managed → Result FindError Managed
find_in namespace pod container [] otherwise = otherwise
find_in namespace pod container (w ∷ ws) otherwise =
    let rest = find_in namespace pod container ws otherwise in
    if not (w.namespace == namespace) || not (w.name == pod)
    then rest
    else if not (w.pod_container_name == []) && not (w.pod_container_name == container)
    then err not_managed
    else ok w

-- findContainer: the running workloads come before the retained ones.
unfoldable pub find_container : Text → Text → Text → Manager → Result FindError Managed
unfolding find_in
find_container namespace pod container m =
    find_in namespace pod container m.workloads
      (find_in namespace pod container m.kept (err not_found))
