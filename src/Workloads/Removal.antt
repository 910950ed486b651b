-- ===== src/Workloads/Removal.antt =====
-- Removing a workload: stopContainer and removeWorkload (pkg/maclet/workload_reconcile.go), and the
-- manager's cleanup (pkg/maclet/workload_network.go). The host is an oracle: whether a call fails may
-- depend on all calls made so far, which are kept newest first.
pub mod Traces
use maclet.Prelude.{
  ℕ, suc, ◌+◌, Bool, true, false, not, ◌||◌, ◌&&◌, Option, none, some, List, [], ◌∷◌, ltb, eqb,
  ◌==◌, text_eq_instance, if◌then◌else◌, text_eq,
}
use maclet.Prelude.Text.{Text, codes}
use maclet.Nfs.Mount.{MountRecord}
use maclet.Workloads.Pods.{Pod}
use maclet.Workloads.Status.{Report}
use maclet.Workloads.Managed.{Managed, Manager, retain_workload, retention}

-- What the manager asks of its surroundings. `start_run` is `macker run` with its arguments, `prepare`
-- stands for what makes these arguments, and a report is a status update of a Pod.
pub data Call : Type 0 where
  archive_logs stop_container force_remove : Text → Call
  release_ip unmount remove_all : Text → Call
  persist : Call
  add_ip read_status read_inspection : Text → Call
  refresh_volumes prepare wait_running pull : Text → Call
  start_run : List Text → Call
  report : Pod → Report → Call

-- How a call ends. A failure is ignorable where the caller asks for its cause and goes on: nothing was
-- there to remove, the Pod is gone, or the image is missing.
pub data Outcome : Type 0 where
  done ignorable failed : Outcome

-- The number of errors that a function joins, and the calls
abbrev pub Step : Type 0
Step = List Call → ℕ × List Call

abbrev pub is_failure : Outcome → ℕ
is_failure done = 0
is_failure ignorable = 0
is_failure failed = 1

abbrev pub is_empty {ℓ} : {A : Type ℓ} → List A → Bool
is_empty [] = true
is_empty (x ∷ xs) = false

module _ (host : List Call → Call → Outcome) where
  unfoldable pub try : Call → Step
  try c h = (is_failure (host h c), c ∷ h)

  -- A failure of the call counts, whatever the error says.
  unfoldable pub try_strict : Call → Step
  try_strict c h = elim (host h c) [
    | done ↦ (0, c ∷ h)
    | ignorable ↦ (1, c ∷ h)
    | failed ↦ (1, c ∷ h)
  ]

  infixl 5 ◌then◌
  abbrev pub ◌then◌ : Step → Step → Step
  ◌then◌ f g h = let (a, h1) = f h in let (b, h2) = g h1 in (a + b, h2)

  abbrev pub nothing : Step
  nothing h = (0, h)

  abbrev pub ignoring : Step → Step
  ignoring f h = (0, (f h).1)

  unfoldable pub stop : Text → Step
  unfolding try
  stop name h =
      if name == [] then (0, h) else (try (stop_container name) then try (force_remove name)) h

  unfoldable pub unmount_all : List MountRecord → Step
  unfolding try
  unmount_all [] h = (0, h)
  unmount_all (r ∷ rs) h =
      (try (unmount r.target) then ignoring (try (remove_all r.target)) then unmount_all rs) h

  unfoldable pub remove_paths : List Text → Step
  unfolding try
  remove_paths [] h = (0, h)
  remove_paths (p ∷ ps) h = (try (remove_all p) then remove_paths ps) h

  unfoldable pub give_back : Bool → Managed → Step
  unfolding try_strict
  give_back network w h =
      if not (w.ip == []) && network && not w.host_network
      then try_strict (release_ip w.ip) h
      else (0, h)

  -- `network` tells whether the manager has a network handle.
  -- Everything that the removal does beside the logs
  unfoldable pub clear : Bool → Managed → Step
  unfolding stop unmount_all remove_paths give_back
  clear network w =
      stop w.container_name
      then give_back network w
      then unmount_all w.nfs_mounts
      then remove_paths w.volume_paths

  -- The workload as the removal leaves it
  unfoldable pub stripped : Managed → Managed
  stripped w = record w { nfs_mounts = []; volume_paths = [] }

  unfoldable pub replace : Managed → List Managed → List Managed
  replace w [] = []
  replace w (x ∷ xs) = let rest = replace w xs in if text_eq x.uid w.uid then w ∷ rest else x ∷ rest

  -- Whether there is a network handle, whether there is a directory for logs, the retention period, the
  -- time of the clean-up, and the file name that archived logs get
  module _ (network logs : Bool) (log_ttl now : ℕ) (log_name : Managed → Text) where
    unfoldable pub archived : Managed → Outcome → Managed
    archived w done = record w {
      log_file = log_name w;
      log_expires_at = some (now + retention log_ttl);
    }
    archived w ignorable = w
    archived w failed = w

    unfoldable pub archive : Managed → List Call → Managed × List Call
    unfolding archived
    archive w h = if w.container_name == [] || not logs then (w, h) else (
      archived w (host h (archive_logs w.container_name)),
      archive_logs w.container_name ∷ h,
    )

    unfoldable pub remove_workload : Managed → List Call → ℕ × Managed × List Call
    unfolding archive clear stripped
    remove_workload w h =
        let (w1, h1) = archive w h in
        let (errors, h2) = clear network w1 h1 in (errors, stripped w1, h2)

    -- The loop of cleanup over the workloads that it found, with whether the journal changed
    unfoldable pub cleanup_each :
        List Managed → Manager → List Call → ℕ × Bool × Manager × List Call
    unfolding remove_workload replace retain_workload
    cleanup_each [] m h = (0, false, m, h)
    cleanup_each (w ∷ ws) m h =
        let (errors, w', h') = remove_workload w h in
        let (e1, c1, m1, h1) =
          cleanup_each ws (record m { workloads = replace w' m.workloads }) h' in
        let (e2, c2, m2, h2) = cleanup_each ws (retain_workload log_ttl now w' m) h' in
        if ltb 0 errors then (e1 + 1, c1, m1, h1) else (e2, true, m2, h2)

    unfoldable pub saved : ℕ × Bool × Manager × List Call → ℕ × Manager × List Call
    unfolding try_strict
    saved (errors, changed, m, h) =
        if changed || is_empty m.workloads
        then (let (e, h') = try_strict persist h in (errors + e, m, h'))
        else (errors, m, h)

    unfoldable pub cleanup : Manager → List Call → ℕ × Manager × List Call
    unfolding cleanup_each saved
    cleanup m h = saved (cleanup_each m.workloads m h)
