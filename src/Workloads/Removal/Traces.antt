-- ===== src/Workloads/Removal/Traces.antt =====
-- What the removal of workloads does whatever the host answers (pkg/maclet/workload_reconcile.go,
-- pkg/maclet/workload_network.go).
mod Tests
use maclet.Prelude.{
  ℕ, ◌+◌, ◌<◌, ◌≡◌, ◌⊎◌, refl, sym, subst, Bool, true, false, not, ◌||◌, ◌&&◌, Option, none, some,
  List, [], ◌∷◌, ◌==◌, text_eq_instance, if◌then◌else◌,
}
use maclet.Prelude.Text.{Text, codes}
use maclet.Nfs.Mount.{MountRecord}
use maclet.Workloads.Managed.{Managed, Manager, find, drop_uid, put, as_retained}
use maclet.Workloads.Managed.Retention.{find-drop_uid, find-put}
use maclet.Workloads.Removal.{
  is_empty, persist, Call, archive_logs, stop_container, force_remove, release_ip, unmount,
  remove_all, Outcome, done, ignorable, failed, try, try_strict, unmount_all, clear, saved,
}

abbrev pub mount_calls : List MountRecord → List Call → List Call
mount_calls [] h = h
mount_calls (r ∷ rs) h = mount_calls rs (remove_all r.target ∷ unmount r.target ∷ h)

abbrev pub is_known : Option Managed → Bool
is_known none = false
is_known (some w) = true

-- Whether the manager knows a UID, be it running or retained
abbrev pub is_tracked : Text → Manager → Bool
is_tracked uid m = is_known (find uid m.workloads) || is_known (find uid m.kept)

module _ (host : List Call → Call → Outcome) where
  -- The target of each mount is removed with all that is in it after the unmount was tried, also when
  -- the unmount failed and the export is mounted there.
  pub unmount_all-calls :
      (rs : List MountRecord) (h : List Call) → (unmount_all host rs h).1 ≡ mount_calls rs h
  unfolding unmount_all try
  unmount_all-calls [] h = refl
  unmount_all-calls (r ∷ rs) h = unmount_all-calls rs (remove_all r.target ∷ unmount r.target ∷ h)

  module _ (network logs : Bool) (log_ttl now : ℕ) (log_name : Managed → Text) where
    saved-tracked :
        (r : ℕ × Bool × Manager × List Call) (uid : Text)
        → is_tracked uid r.2 ≡ true
        → is_tracked uid (saved host network logs log_ttl now log_name r).1 ≡ true
    unfolding saved
    saved-tracked r uid t = go (r.1 || is_empty r.2.workloads)
      where
        go :
            (b : Bool)
            → is_tracked uid
                (if◌then◌else◌ {A = ℕ × Manager × List Call} b
                  (r.0 + (try_strict host persist r.3).0, r.2, (try_strict host persist r.3).1)
                  (r.0, r.2, r.3)).1
              ≡ true
        go true = t
        go false = t

    -- How a workload ends that the manager knew: retained, or running still, with an error returned
    abbrev pub IsAccounted : Text → ℕ × Manager × List Call → Type 0
    IsAccounted uid r =
        (is_known (find uid r.1.kept) ≡ true)
        ⊎ ((is_known (find uid r.1.workloads) ≡ true) × (0 < r.0))
