-- ===== src/Workloads/Reconcile/Settled.antt =====
-- What runs besides the Pods that are assigned, and what leaves it alone
-- (pkg/maclet/workload_reconcile.go).
use maclet.Prelude.{
  ℕ, ◌≡◌, Bool, true, false, not, ◌||◌, ◌&&◌, List, [], ◌∷◌, arith, text_eq, text_eq_iff,
  text_eq_instance, contains, Option,
}
use maclet.Prelude.Text.{Text}
use maclet.Network.Handle.{Handle}
use maclet.Workloads.Pods.{Pod}
use maclet.Workloads.Managed.{Managed, Manager, find, put, retain_workload}
use maclet.Workloads.Managed.Retention.{find-put, find-retain_workload}
use maclet.Workloads.Removal.{is_empty}
use maclet.Workloads.Removal.Traces.{is_known}
use maclet.Workloads.Reconcile.{World, uid_of}
use maclet.Workloads.Reconcile.Actions.{IsQuiet, IsClosed, is_deleted}

-- Whether one of the Pods is native, is not being deleted, and has the UID
abbrev pub is_assigned : List Pod → Text → Bool
is_assigned [] uid = false
is_assigned (p ∷ ps) uid =
    p.native && not (is_deleted p) && text_eq (uid_of p) uid || is_assigned ps uid

abbrev pub is_running : Text → World → Bool
is_running uid w = is_known (find uid w.manager.workloads)

-- Without errors so far, what runs and was seen satisfies the test.
abbrev pub IsSettled : (Text → Bool) → World → Type 0
IsSettled a w =
    is_empty w.errors ≡ true
    → (uid : Text) → is_running uid w ≡ true
    → contains w.seen uid ≡ true
    → a uid ≡ true

-- Without errors so far, what runs satisfies the test or is among the workloads.
abbrev pub IsLeft : (Text → Bool) → List Managed → World → Type 0
IsLeft a ms w =
    is_empty w.errors ≡ true
    → (uid : Text) → is_running uid w ≡ true
    → (a uid || is_known (find uid ms)) ≡ true

pub is_running-put :
    (m : Managed) (uid : Text) (ws : List Managed)
    → is_known (find uid (put m ws)) ≡ (text_eq m.uid uid || is_known (find uid ws))
is_running-put m uid ws = ground (arith, find-put m uid ws)

pub is_running-retain :
    (log_ttl now : ℕ) (m : Managed) (g : Manager) (uid : Text)
    → is_known (find uid (retain_workload log_ttl now m g).workloads)
      ≡ (not (text_eq m.uid uid) && is_known (find uid g.workloads))
is_running-retain log_ttl now m g uid = ground (arith, (find-retain_workload log_ttl now m g uid).0)

module _ (network : Option Handle) (a : Text → Bool) where
  pub IsSettled-IsQuiet : IsQuiet network (IsSettled a)
  IsSettled-IsQuiet = record { on_note = λ w t q e. cc; on_call = λ w c x q. q }

  pub IsLeft-IsQuiet : (ms : List Managed) → IsQuiet network (IsLeft a ms)
  IsLeft-IsQuiet ms = record { on_note = λ w t q e. cc; on_call = λ w c x q. q }

  pub IsSettled-IsClosed : (uid : Text) → a uid ≡ true → IsClosed network uid (IsSettled a)
  unfolding contains
  IsSettled-IsClosed uid good = record {
    quiet = IsSettled-IsQuiet;
    on_see = λ w q e key r s. ground (arith, text_eq_iff uid key, good, q e key);
    on_use = λ w ip q. q;
    on_keep = λ w m same q e key r s. ground (
      arith,
      text_eq_iff m.uid key,
      good,
      same,
      q e key,
      is_running-put m key w.manager.workloads,
    );
    on_retain = λ w m log_ttl now same q e key r s.
        ground (arith, q e key, is_running-retain log_ttl now m w.manager key);
  }
