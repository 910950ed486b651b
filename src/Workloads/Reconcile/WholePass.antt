-- ===== src/Workloads/Reconcile/WholePass.antt =====
-- What a whole pass keeps, from what its steps keep (pkg/maclet/workload_reconcile.go).
use maclet.Prelude.{◌≡◌, refl, true, false, ◌||◌, List, [], ◌∷◌, ltb, text_eq_instance}
use maclet.Prelude.Exec.Keeps.{
  Anything, Ensures, Ensures-pure, Ensures-read, Ensures-if, Ensures-bind, Ensures-next,
}
use maclet.Prelude.Text.{Text}
use maclet.Workloads.Pods.{Pod}
use maclet.Workloads.Managed.{Managed}
use maclet.Workloads.Reconcile.{Host, Settings, World, uid_of, not_removed}
use maclet.Workloads.Reconcile.Pass.{
  handle_pods, settle_unseen, drop_unseen, drop_one, drop_stale, addresses_of, run_pods, pass_over,
}
use maclet.Workloads.Reconcile.Actions.{IsClosed, Ensures-note, Ensures-keep}
use maclet.Workloads.Reconcile.Started.{Ensures-remove, Ensures-retain}
use maclet.Workloads.Reconcile.Invariants.{Ensures-save_stale, Ensures-handle_pod}

module _ (host : Host) (settings : Settings) {P : World → Type 0}
    (closed : (uid : Text) → IsClosed settings.network uid P)
    (fresh : (w : World) (ips : List Text) → P w → P (record w { used = ips; seen = [] })) where
  pub Ensures-drop_unseen : (m : Managed) → Ensures P Anything (drop_unseen host settings m)
  unfolding drop_unseen settle_unseen
  Ensures-drop_unseen m =
      Ensures-bind {Q = λ r. r.1.uid ≡ m.uid} (Ensures-remove host settings (closed m.uid) m refl)
        (λ r e.
          Ensures-if {b = ltb 0 r.0}
            (λ x.
              Ensures-next
                (Ensures-next (Ensures-note host settings (closed m.uid).quiet m.uid not_removed)
                  (Ensures-keep host settings (closed m.uid) r.1 e))
                (Ensures-pure false tt))
            (λ x.
              Ensures-next (Ensures-retain host settings (closed m.uid) r.1 e)
                (Ensures-pure true tt)))

  pub Ensures-drop_stale : (ms : List Managed) → Ensures P Anything (drop_stale host settings ms)
  unfolding drop_stale drop_one
  Ensures-drop_stale [] = Ensures-pure false tt
  Ensures-drop_stale (m ∷ ms) =
      Ensures-bind {Q = Anything}
        (Ensures-bind {Q = Anything} (Ensures-read _ (λ w q. tt)) (λ known u.
          Ensures-if {b = known} (λ x. Ensures-pure false tt) (λ x. Ensures-drop_unseen m)))
        (λ changed u.
          Ensures-bind (Ensures-drop_stale ms) (λ rest v. Ensures-pure (changed || rest) tt))

  pub handle_pods-keeps : (ps : List Pod) (w : World) → P w → P (handle_pods host settings ps w)
  unfolding handle_pods
  handle_pods-keeps [] w q = q
  handle_pods-keeps (p ∷ ps) w q =
      handle_pods-keeps ps _ ((Ensures-handle_pod host settings p (closed (uid_of p))).at w q).0

  pub Ensures-run_pods : (ps : List Pod) → Ensures P Anything (run_pods host settings ps)
  unfolding run_pods
  Ensures-run_pods ps = record {
    at = λ w q. (handle_pods-keeps ps _ (fresh w (addresses_of host settings ps) q), tt);
  }

  pub Ensures-pass_over : (ps : List Pod) → Ensures P Anything (pass_over host settings ps)
  unfolding pass_over
  Ensures-pass_over ps = Ensures-next (Ensures-run_pods ps) (
      Ensures-bind {Q = Anything} (Ensures-read _ (λ w q. tt)) (λ ws u.
        Ensures-bind (Ensures-drop_stale ws)
          (λ changed v. Ensures-save_stale host settings (closed []).quiet changed)))
