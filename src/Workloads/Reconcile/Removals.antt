-- ===== src/Workloads/Reconcile/Removals.antt =====
-- The steps of a removal (pkg/maclet/workload_reconcile.go) as part of a pass: they only make calls, and
-- they leave the UID of the workload as it is.
use maclet.Prelude.{
  ℕ, ◌≡◌, refl, subst, sym, Bool, true, false, not, ◌||◌, ◌&&◌, Option, List, [], ◌∷◌, arith, ◌==◌,
  text_eq_instance, contains, if◌then◌else◌, Bool-cases, inl, inr,
}
use maclet.Prelude.Text.{Text}
use maclet.Network.Handle.{Handle}
use maclet.Nfs.Mount.{MountRecord}
use maclet.Workloads.Managed.{Managed}
use maclet.Workloads.Removal.{
  Call, archive_logs, stop_container, force_remove, release_ip, unmount, remove_all, Outcome, done,
  ignorable, failed, try, try_strict, stop, unmount_all, remove_paths, give_back, clear, stripped,
  archived, archive, remove_workload,
}
use maclet.Workloads.Reconcile.{replace_volume_paths}
use maclet.Workloads.Reconcile.Actions.{IsAllowed}

module _ (host : List Call → Call → Outcome) (network : Option Handle) {Q : List Call → Type 0}
    (called : (h : List Call) (c : Call) → IsAllowed network c → Q h → Q (c ∷ h)) where
  try_strict-call : (c : Call) (h : List Call) → (try_strict host c h).1 ≡ c ∷ h
  unfolding try_strict
  try_strict-call c h = ground arith

  pub stop-keeps : (name : Text) (h : List Call) → Q h → Q (stop host name h).1
  unfolding stop try
  stop-keeps name h q =
      let both = called _ (force_remove name) tt (called h (stop_container name) tt q) in
      elim (Bool-cases (name == [])) [ inl e ↦ rw e q | inr e ↦ rw e both ]

  unmount_all-keeps : (rs : List MountRecord) (h : List Call) → Q h → Q (unmount_all host rs h).1
  unfolding unmount_all try
  unmount_all-keeps [] h q = q
  unmount_all-keeps (r ∷ rs) h q =
      unmount_all-keeps rs _ (called _ (remove_all r.target) tt (called h (unmount r.target) tt q))

  remove_paths-keeps : (ps : List Text) (h : List Call) → Q h → Q (remove_paths host ps h).1
  unfolding remove_paths try
  remove_paths-keeps [] h q = q
  remove_paths-keeps (p ∷ ps) h q = remove_paths-keeps ps _ (called h (remove_all p) tt q)

  give_back-keeps : (on : Bool) (w : Managed) (h : List Call) → Q h → Q (give_back host on w h).1
  unfolding give_back
  give_back-keeps on w h q = go (not (w.ip == []) && on && not w.host_network)
    where
      go :
          (b : Bool)
          → Q (if◌then◌else◌ {A = ℕ × List Call} b (try_strict host (release_ip w.ip) h) (0, h)).1
      go true =
          subst Q (sym (try_strict-call (release_ip w.ip) h)) (called h (release_ip w.ip) tt q)
      go false = q

  clear-keeps : (on : Bool) (w : Managed) (h : List Call) → Q h → Q (clear host on w h).1
  unfolding clear
  clear-keeps on w h q =
      remove_paths-keeps w.volume_paths _ (
        unmount_all-keeps w.nfs_mounts _ (give_back-keeps on w _ (stop-keeps w.container_name h q)))

  module _ (on logs : Bool) (log_ttl now : ℕ) (log_name : Managed → Text) where
    archived-uid :
        (w : Managed) (o : Outcome) → (archived host on logs log_ttl now log_name w o).uid ≡ w.uid
    unfolding archived
    archived-uid w done = refl
    archived-uid w ignorable = refl
    archived-uid w failed = refl

    pub archive-keeps :
        (w : Managed) (h : List Call)
        → Q h
        → Q (archive host on logs log_ttl now log_name w h).1
          × ((archive host on logs log_ttl now log_name w h).0.uid ≡ w.uid)
    unfolding archive
    archive-keeps w h q =
        let q' = called h (archive_logs w.container_name) tt q in
        elim (Bool-cases (w.container_name == [] || not logs)) [
          | inl e ↦ rw e (q, refl)
          | inr e ↦ rw e (q', archived-uid w _)
        ]

    pub remove_workload-keeps :
        (w : Managed) (h : List Call)
        → Q h
        → Q (remove_workload host on logs log_ttl now log_name w h).2
          × ((remove_workload host on logs log_ttl now log_name w h).1.uid ≡ w.uid)
    unfolding remove_workload stripped
    remove_workload-keeps w h q =
        let (w1, h1) = archive host on logs log_ttl now log_name w h in
        let (q1, same) = archive-keeps w h q in (clear-keeps on w1 h1 q1, same)

  pub replace_volume_paths-keeps :
      (kept ps : List Text) (h : List Call) → Q h → Q (replace_volume_paths kept ps h)
  unfolding replace_volume_paths
  replace_volume_paths-keeps kept [] h q = q
  replace_volume_paths-keeps kept (p ∷ ps) h q =
      go (contains kept p) (replace_volume_paths-keeps kept ps h q)
        (replace_volume_paths-keeps kept ps (remove_all p ∷ h) (called h (remove_all p) tt q))
    where
      go :
          (b : Bool)
          → Q (replace_volume_paths kept ps h)
          → Q (replace_volume_paths kept ps (remove_all p ∷ h))
          → Q (
              if b
              then replace_volume_paths kept ps h
              else replace_volume_paths kept ps (remove_all p ∷ h))
      go true x y = x
      go false x y = y
