-- ===== src/Workloads/Managed/Retention.antt =====
-- What retaining and pruning (pkg/maclet/workload_logs.go) leave in the maps.
use maclet.Prelude.{
  ℕ, ◌≡◌, refl, false, none, some, List, [], ◌∷◌, All, text_eq, text_eq_iff, text_eq_instance,
  arith, if◌then◌else◌,
}
use maclet.Prelude.Text.{Text}
use maclet.Workloads.Managed.{
  Managed, Manager, find, drop_uid, put, as_retained, retain_workload, is_expired, unexpired,
  any_expired, prune_retained_logs,
}

pub find-drop_uid :
    (uid key : Text) (ws : List Managed)
    → find key (drop_uid uid ws) ≡ (if text_eq uid key then none else find key ws)
unfolding find drop_uid
find-drop_uid uid key [] = ground arith
find-drop_uid uid key (w ∷ ws) = ground (
  arith,
  find-drop_uid uid key ws,
  text_eq_iff w.uid uid,
  text_eq_iff w.uid key,
  text_eq_iff uid key,
)

pub find-put :
    (w : Managed) (key : Text) (ws : List Managed)
    → find key (put w ws) ≡ (if text_eq w.uid key then some w else find key ws)
unfolding find put
find-put w key ws = ground (arith, find-drop_uid w.uid key ws)

-- A retained workload moves from one map to the other, without its address, volumes and mounts; every
-- other workload stays where it was.
pub find-retain_workload :
    (log_ttl now : ℕ) (w : Managed) (m : Manager) (key : Text)
    → (find key (retain_workload log_ttl now w m).workloads
        ≡ (if text_eq w.uid key then none else find key m.workloads))
      × (find key (retain_workload log_ttl now w m).kept
          ≡ (if text_eq w.uid key then some (as_retained log_ttl now w) else find key m.kept))
unfolding retain_workload as_retained
find-retain_workload log_ttl now w m key =
    (find-drop_uid w.uid key m.workloads, find-put (as_retained log_ttl now w) key m.kept)

abbrev pub IsLive : ℕ → Managed → Type 0
IsLive now w = is_expired now w.log_expires_at ≡ false

unexpired-IsLive : (now : ℕ) (ws : List Managed) → All (IsLive now) (unexpired now ws)
unfolding unexpired
unexpired-IsLive now [] = tt
unexpired-IsLive now (w ∷ ws) = ground (arith, unexpired-IsLive now ws)

unexpired-same : (now : ℕ) (ws : List Managed) → any_expired now ws ≡ false → unexpired now ws ≡ ws
unfolding unexpired any_expired
unexpired-same now [] h = refl
unexpired-same now (w ∷ ws) h = ground (arith, unexpired-same now ws)

-- Pruning keeps no expired workload, touches none that runs, and reports a change unless all stay.
pub prune_retained_logs_lem :
    (now : ℕ) (m : Manager)
    → All (IsLive now) (prune_retained_logs now m).1.kept
      × ((prune_retained_logs now m).1.workloads ≡ m.workloads)
      × ((prune_retained_logs now m).0 ≡ false → (prune_retained_logs now m).1.kept ≡ m.kept)
unfolding prune_retained_logs
prune_retained_logs_lem now m = (unexpired-IsLive now m.kept, refl, unexpired-same now m.kept)
