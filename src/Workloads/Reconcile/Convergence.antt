-- ===== src/Workloads/Reconcile/Convergence.antt =====
-- What a pass without errors (pkg/maclet/workload_reconcile.go) leaves running.
mod Tests
use maclet.Prelude.{
  ℕ, ◌≡◌, refl, sym, ap, subst, ◌∙◌, Bool, true, false, not, ◌||◌, ◌&&◌, List, [], ◌∷◌, All, arith,
  ltb, text_eq, text_eq_iff, ◌==◌, text_eq_instance, contains, if◌then◌else◌, Bool-cases,
  Option-cases, Option, none, some, inl, inr, Result, ok, err,
}
use maclet.Prelude.Exec.{pure, continue}
use maclet.Prelude.Exec.Bind.{◌>>=◌, ◌>>◌}
use maclet.Prelude.Exec.Keeps.{Anything, Ensures}
use maclet.Prelude.Text.{Text}
use maclet.Network.Handle.{Handle}
use maclet.Workloads.Pods.{Pod}
use maclet.Workloads.Managed.{Managed, Manager, find, put, retain_workload}
use maclet.Workloads.Managed.Retention.{find-put, find-retain_workload}
use maclet.Workloads.Removal.{is_empty, persist}
use maclet.Workloads.Removal.Traces.{is_known}
use maclet.Workloads.Reconcile.{
  Host, Settings, World, Flow, Skip, uid_of, is_done, ask, note, keep, retain, see, remove,
  persisted,
}
use maclet.Workloads.Reconcile.Pass.{
  by_deletion, handle_pod, handle_pods, settle_unseen, drop_unseen, drop_one, drop_stale,
  save_stale, run_pods, pass_over, save_pruned, prune, reconcile,
}
use maclet.Workloads.Reconcile.Assigned.{assigned_pod}
use maclet.Workloads.Reconcile.Deletion.{delete_pod, remove_deleted, conclude}
use maclet.Workloads.Reconcile.Actions.{IsQuiet, IsClosed, is_deleted}
use maclet.Workloads.Reconcile.Started.{Ensures-remove}
use maclet.Workloads.Reconcile.Invariants.{
  Ensures-remove_deleted, Ensures-acknowledge, Ensures-assigned_pod, Ensures-save_stale,
}
use maclet.Workloads.Reconcile.Settled.{
  is_assigned, is_running, IsSettled, IsLeft, is_running-retain, IsSettled-IsQuiet, IsLeft-IsQuiet,
  IsSettled-IsClosed,
}
use maclet.Workloads.Reconcile.Visits.{handle_pods-IsSettled, covered}

module _ (host : Host) (settings : Settings) (a : Text → Bool) where
  module _ (m : Managed) (ms : List Managed) (w : World) where
    dropped-IsLeft :
        (m' : Managed)
        → m'.uid ≡ m.uid
        → IsLeft a (m ∷ ms) w
        → IsLeft a ms (retain host settings m' w).1
    unfolding retain find
    dropped-IsLeft m' same l e key r = ground (
      arith,
      l e key,
      ap (λ u. text_eq u key) same,
      is_running-retain settings.log_ttl (host.now w.calls) m' w.manager key,
    )

    dropped-IsSettled : (m' : Managed) → IsSettled a w → IsSettled a (retain host settings m' w).1
    unfolding retain
    dropped-IsSettled m' q e key r s =
        ground
          (arith, q e key, is_running-retain settings.log_ttl (host.now w.calls) m' w.manager key)

    seen-IsLeft : contains w.seen m.uid ≡ true → IsSettled a w → IsLeft a (m ∷ ms) w → IsLeft a ms w
    unfolding find
    seen-IsLeft known q l e key r = elim (Bool-cases (text_eq m.uid key)) [
      | inl this ↦
          let same = (text_eq_iff m.uid key).0 this in
          ground (arith, q e key r (subst (λ u. contains w.seen u ≡ true) same known))
      | inr other ↦ ground (arith, other, l e key r)
    ]

  -- The state while the workloads are still to be looked at
  abbrev IsDropping : List Managed → World → Type 0
  IsDropping ms w = IsSettled a w × IsLeft a ms w

  settle_drop :
      (m : Managed) (ms : List Managed) (r : ℕ × Managed) (w : World)
      → r.1.uid ≡ m.uid
      → IsDropping (m ∷ ms) w
      → IsDropping ms (settle_unseen host settings m r w).1
  unfolding settle_unseen ◌>>=◌ note keep retain
  settle_drop m ms (errors, m') w same (q, l) = elim (Bool-cases (ltb 0 errors)) [
    | inl lost ↦ rw lost (λ e. cc, λ e. cc)
    | inr gone ↦ rw gone (dropped-IsSettled m ms w m' q, dropped-IsLeft m ms w m' same l)
  ]

  drop_unseen-step :
      (m : Managed) (ms : List Managed) (w : World)
      → IsDropping (m ∷ ms) w
      → IsDropping ms (drop_unseen host settings m w).1
  unfolding drop_unseen ◌>>=◌ remove
  drop_unseen-step m ms w (q, l) =
      let closed = IsSettled-IsClosed settings.network (λ u. true) m.uid refl in
      let same = ((Ensures-remove host settings closed m refl).at w (λ e key x s. refl)).1 in
      settle_drop m ms _ _ same (q, l)

  drop_one-step :
      (m : Managed) (ms : List Managed) (w : World)
      → IsDropping (m ∷ ms) w
      → IsDropping ms (drop_one host settings m w).1
  unfolding drop_one ◌>>=◌
  drop_one-step m ms w (q, l) = elim (Bool-cases (contains w.seen m.uid)) [
    | inl known ↦ rw known (q, seen-IsLeft m ms w known q l)
    | inr new ↦ rw new (drop_unseen-step m ms w (q, l))
  ]

  settled_ok :
      (m : Managed) (r : ℕ × Managed) (w : World)
      → (b : Bool) × ((settle_unseen host settings m r w).0 ≡ ok b)
  unfolding settle_unseen ◌>>=◌ note keep retain
  settled_ok m (errors, m') w = elim (Bool-cases (ltb 0 errors)) [
    | inl lost ↦ rw lost (false, refl)
    | inr gone ↦ rw gone (true, refl)
  ]

  drop_one_ok : (m : Managed) (w : World) → (b : Bool) × ((drop_one host settings m w).0 ≡ ok b)
  unfolding drop_one drop_unseen ◌>>=◌ remove
  drop_one_ok m w = elim (Bool-cases (contains w.seen m.uid)) [
    | inl known ↦ rw known (false, refl)
    | inr new ↦ rw new (settled_ok m _ _)
  ]

  continue-pure :
      (r : Result Skip Bool) (f : Bool → Bool) (w : World) → (continue r (λ c. pure (f c)) w).1 ≡ w
  continue-pure (ok c) f w = refl
  continue-pure (err e) f w = refl

  drop_stale-step :
      (ms : List Managed) (w : World)
      → IsDropping ms w
      → IsDropping [] (drop_stale host settings ms w).1
  unfolding drop_stale ◌>>=◌
  drop_stale-step [] w q = q
  drop_stale-step (m ∷ ms) w q =
      let (b, e) = drop_one_ok m w in
      let w' = (drop_one host settings m w).1 in
      let rest : IsDropping [] ((drop_stale host settings ms >>= λ c. pure (b || c)) w').1 =
        subst (IsDropping [])
          (sym (continue-pure (drop_stale host settings ms w').0 (λ c. b || c) _))
          (drop_stale-step ms w' (drop_one-step m ms w q)) in
      subst
        (λ r.
          IsDropping [] (continue r (λ d. drop_stale host settings ms >>= λ c. pure (d || c)) w').1)
        (sym e) rest

  pass_over-IsLeft :
      (pods : List Pod) (w : World)
      → ((uid : Text) → is_assigned pods uid ≡ true → a uid ≡ true)
      → IsLeft a [] (pass_over host settings pods w).1
  unfolding pass_over ◌>>=◌ run_pods contains
  pass_over-IsLeft pods w h =
      let w1 = (run_pods host settings pods w).1 in
      let settled : IsSettled a w1 =
        handle_pods-IsSettled host settings a pods _ (covered host settings a pods h)
          (λ e key r s. cc) in
      let dropped =
        drop_stale-step w1.manager.workloads w1 (settled, λ e key r. ground (arith, r)) in
      finish (drop_stale host settings w1.manager.workloads w1).0 _ dropped.1
    where
      finish :
          (r : Result Skip Bool) (v : World)
          → IsLeft a [] v
          → IsLeft a [] (continue r (save_stale host settings) v).1
      finish (err e) v l = l
      finish (ok c) v l =
          ((Ensures-save_stale host settings (IsLeft-IsQuiet settings.network a []) c).at v l).0

-- A pass that cannot write the pruned journal ends with an error.
save_pruned-left :
    (host : Host) (settings : Settings) (changed : Bool) (k : Flow (Unit {0})) (w : World)
    → (P : World → Type 0) → ((v : World) → is_empty v.errors ≡ false → P v)
    → ((v : World) → P (k v).1)
    → P ((save_pruned host settings changed >> k) w).1
unfolding save_pruned ◌>>=◌ persisted ask note
save_pruned-left host settings false k w P bad good = good w
save_pruned-left host settings true k w P bad good =
    elim (Bool-cases (is_done (host.outcome w.calls persist))) [
      | inl saved ↦ rw saved (good _)
      | inr lost ↦ rw lost (bad _ refl)
    ]

-- If a pass ends without errors, then every workload that the manager records as running belongs to a Pod
-- of the list that is native and is not being deleted.
pub reconcile-assigned :
    (host : Host) (settings : Settings) (pods : List Pod) (w : World) (uid : Text)
    → (reconcile host settings pods w).1.errors ≡ []
    → is_running uid (reconcile host settings pods w).1 ≡ true
    → is_assigned pods uid ≡ true
unfolding reconcile ◌>>=◌ prune find
reconcile-assigned host settings pods w uid clean running =
    let left : IsLeft (is_assigned pods) [] (reconcile host settings pods w).1 =
      save_pruned-left host settings _ (pass_over host settings pods) _
        (IsLeft (is_assigned pods) []) (λ v bad e. cc)
        (λ v. pass_over-IsLeft host settings (is_assigned pods) pods v (λ key e. e)) in
    ground (arith, left (ap is_empty clean) uid running)
