-- ===== src/Workloads/Reconcile/Safety.antt =====
-- What a pass (pkg/maclet/workload_reconcile.go) does whatever its surroundings answer: the calls that it
-- makes, and the workloads that it goes on knowing.
mod Tests
use maclet.Prelude.{
  ℕ, ◌≡◌, refl, Bool, true, false, ◌||◌, Option, List, [], ◌∷◌, All, arith, text_eq, if◌then◌else◌,
}
use maclet.Prelude.Exec.{fail, pure}
use maclet.Prelude.Exec.Bind.{◌>>=◌}
use maclet.Prelude.Exec.Keeps.{
  Anything, Ensures, Ensures-pure, Ensures-fail, Ensures-read, Ensures-if, Ensures-bind,
  Ensures-next,
}
use maclet.Prelude.Text.{Text}
use maclet.Network.Handle.{Handle}
use maclet.Workloads.Pods.{Pod}
use maclet.Workloads.Managed.{Managed, Manager, prune_retained_logs}
use maclet.Workloads.Managed.Retention.{find-put, find-retain_workload}
use maclet.Workloads.Removal.{Call}
use maclet.Workloads.Removal.Traces.{is_tracked}
use maclet.Workloads.Reconcile.{Host, Settings, World, skip_pod, not_pruned, note}
use maclet.Workloads.Reconcile.Pass.{prune, save_pruned, reconcile}
use maclet.Workloads.Reconcile.Actions.{IsAllowed, IsClosed, Ensures-note, Ensures-persisted}
use maclet.Workloads.Reconcile.WholePass.{Ensures-pass_over}

-- All calls so far are allowed.
abbrev pub IsProper : Option Handle → World → Type 0
IsProper network w = All (IsAllowed network) w.calls

IsProper-IsClosed : (network : Option Handle) (uid : Text) → IsClosed network uid (IsProper network)
IsProper-IsClosed network uid = record {
  quiet = record { on_note = λ w t q. q; on_call = λ w c a q. (a, q) };
  on_see = λ w q. q;
  on_use = λ w ip q. q;
  on_keep = λ w m e q. q;
  on_retain = λ w m log_ttl now e q. q;
}

abbrev pub IsKnown : Text → World → Type 0
IsKnown key w = is_tracked key w.manager ≡ true

IsKnown-IsClosed : (network : Option Handle) (key uid : Text) → IsClosed network uid (IsKnown key)
IsKnown-IsClosed network key uid = record {
  quiet = record { on_note = λ w t q. q; on_call = λ w c a q. q };
  on_see = λ w q. q;
  on_use = λ w ip q. q;
  on_keep = λ w m e q. ground (arith, find-put m key w.manager.workloads);
  on_retain = λ w m log_ttl now e q. ground (
    arith,
    (find-retain_workload log_ttl now m w.manager key).0,
    (find-retain_workload log_ttl now m w.manager key).1,
  );
}

module _ (host : Host) (settings : Settings) {P : World → Type 0}
    (closed : (uid : Text) → IsClosed settings.network uid P)
    (fresh : (w : World) (ips : List Text) → P w → P (record w { used = ips; seen = [] })) where
  Ensures-save_pruned : (changed : Bool) → Ensures P Anything (save_pruned host settings changed)
  unfolding save_pruned
  Ensures-save_pruned changed =
      Ensures-if {b = changed}
        (λ x. Ensures-bind (Ensures-persisted host settings (closed []).quiet) (λ saved u.
          Ensures-if {b = saved} (λ y. Ensures-pure tt tt)
            (λ y.
              Ensures-next (Ensures-note host settings (closed []).quiet [] not_pruned)
                (Ensures-fail skip_pod))))
        (λ x. Ensures-pure tt tt)

  reconcile-keeps :
      (pods : List Pod) (w : World)
      → P (prune host settings w).1
      → P (reconcile host settings pods w).1
  unfolding reconcile ◌>>=◌ prune
  reconcile-keeps pods w q =
      let rest =
        Ensures-next (Ensures-save_pruned _) (Ensures-pass_over host settings closed fresh pods) in
      (rest.at (prune host settings w).1 q).0

-- Every address that a pass asks to add is one that the network takes, and every report fits its Pod:
-- the Pod is native or deleted, and it is reported as ended only if it is deleted or is not started
-- again. So it stays for calls that were all of this kind before.
pub reconcile-IsProper :
    (host : Host) (settings : Settings) (pods : List Pod) (w : World)
    → IsProper settings.network w
    → IsProper settings.network (reconcile host settings pods w).1
unfolding prune
reconcile-IsProper host settings pods w q =
    reconcile-keeps host settings (IsProper-IsClosed settings.network) (λ v ips r. r) pods w q

-- A pass forgets no workload: what the manager knows once expired logs are pruned, be it running or
-- retained, it knows behind the pass, whatever fails.
pub reconcile-IsKnown :
    (host : Host) (settings : Settings) (pods : List Pod) (w : World) (uid : Text)
    → is_tracked uid (prune_retained_logs (host.now w.calls) w.manager).1 ≡ true
    → is_tracked uid (reconcile host settings pods w).1.manager ≡ true
unfolding prune
reconcile-IsKnown host settings pods w uid q =
    reconcile-keeps host settings (IsKnown-IsClosed settings.network uid) (λ v ips r. r) pods w q
