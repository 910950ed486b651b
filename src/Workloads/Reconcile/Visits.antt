-- ===== src/Workloads/Reconcile/Visits.antt =====
-- What the Pods of the list leave running (pkg/maclet/workload_reconcile.go).
use maclet.Prelude.{
  ℕ, ◌≡◌, refl, sym, ap, subst, Bool, true, false, ◌||◌, List, [], ◌∷◌, All, arith, ltb, text_eq,
  text_eq_iff, text_eq_instance, if◌then◌else◌, Bool-cases, Option, none, some, inl, inr,
}
use maclet.Prelude.Exec.{pure}
use maclet.Prelude.Exec.Bind.{◌>>=◌}
use maclet.Prelude.Text.{Text}
use maclet.Workloads.Pods.{Pod}
use maclet.Workloads.Managed.{Managed}
use maclet.Workloads.Reconcile.{Host, Settings, World, uid_of, note, keep, retain, see, remove}
use maclet.Workloads.Reconcile.Pass.{by_deletion, handle_pod, handle_pods}
use maclet.Workloads.Reconcile.Assigned.{assigned_pod}
use maclet.Workloads.Reconcile.Deletion.{delete_pod, remove_deleted, conclude}
use maclet.Workloads.Reconcile.Actions.{is_deleted}
use maclet.Workloads.Reconcile.Invariants.{
  Ensures-remove_deleted, Ensures-acknowledge, Ensures-assigned_pod,
}
use maclet.Workloads.Reconcile.Settled.{
  is_assigned, IsSettled, is_running-retain, IsSettled-IsQuiet, IsSettled-IsClosed,
}

module _ (host : Host) (settings : Settings) (a : Text → Bool) where
  -- The test, or the Pod that is being handled
  abbrev pub or_this : Pod → Text → Bool
  or_this p uid = a uid || text_eq (uid_of p) uid

  pub retained-IsSettled :
      (p : Pod) (m : Managed) (w : World)
      → m.uid ≡ uid_of p
      → IsSettled (or_this p) w
      → IsSettled a (retain host settings m w).1
  unfolding retain
  retained-IsSettled p m w same q e key r s = ground (
    arith,
    q e key,
    ap (λ u. text_eq u key) same,
    is_running-retain settings.log_ttl (host.now w.calls) m w.manager key,
  )

  pub conclude-IsSettled :
      (p : Pod) (r : ℕ × Managed) (w : World)
      → is_deleted p ≡ true
      → r.1.uid ≡ uid_of p
      → IsSettled (or_this p) w
      → IsSettled a (conclude host settings p r w).1
  unfolding conclude note keep ◌>>=◌ retain
  conclude-IsSettled p (errors, m) w d same q = elim (Bool-cases (ltb 0 errors)) [
    | inl lost ↦ rw lost (λ e. cc)
    | inr gone ↦ rw gone (
        ((Ensures-acknowledge host settings (IsSettled-IsQuiet settings.network a) p m d).at
          (retain host settings m w).1 (retained-IsSettled p m w same q)).0)
  ]

  pub delete_pod-IsSettled :
      (p : Pod) (w : World)
      → is_deleted p ≡ true
      → IsSettled a w
      → IsSettled a (delete_pod host settings p w).1
  unfolding delete_pod ◌>>=◌ remove_deleted see remove
  delete_pod-IsSettled p w d q =
      let closed =
        IsSettled-IsClosed settings.network (or_this p) (uid_of p)
          (ground (arith, text_eq_iff (uid_of p) (uid_of p))) in
      let weaker : IsSettled (or_this p) w = λ e key r s. ground (arith, q e key r s) in
      let (settled, same) = (Ensures-remove_deleted host settings p closed).at w weaker in
      conclude-IsSettled p _ _ d same settled

  -- The test holds of a Pod that the pass runs.
  abbrev pub IsCovered : Pod → Type 0
  IsCovered p = p.native ≡ true → is_deleted p ≡ false → a (uid_of p) ≡ true

  pub by_deletion-IsSettled :
      (p : Pod) (o : Option ℕ) (w : World)
      → p.deleted_at ≡ o
      → IsCovered p
      → IsSettled a w
      → IsSettled a (by_deletion host settings p o w).1
  unfolding by_deletion
  by_deletion-IsSettled p (some t) w e c q = delete_pod-IsSettled p w (ground (arith, e)) q
  by_deletion-IsSettled p none w e c q = elim (Bool-cases p.native) [
    | inl native ↦
        subst (λ b. IsSettled a ((if b then assigned_pod host settings p else pure tt) w).1)
          (sym native)
          ((Ensures-assigned_pod host settings p
              (IsSettled-IsClosed settings.network a (uid_of p) (c native (ground (arith, e))))
              native).at
            w q).0
    | inr other ↦
        subst (λ b. IsSettled a ((if b then assigned_pod host settings p else pure tt) w).1)
          (sym other) q
  ]

  pub handle_pods-IsSettled :
      (ps : List Pod) (w : World)
      → All IsCovered ps
      → IsSettled a w
      → IsSettled a (handle_pods host settings ps w)
  unfolding handle_pods handle_pod
  handle_pods-IsSettled [] w c q = q
  handle_pods-IsSettled (p ∷ ps) w c q =
      handle_pods-IsSettled ps _ c.1 (by_deletion-IsSettled p p.deleted_at w refl c.0 q)

  pub covered :
      (ps : List Pod) → ((uid : Text) → is_assigned ps uid ≡ true → a uid ≡ true) → All IsCovered ps
  covered [] h = tt
  covered (p ∷ ps) h = (
    λ native kept. h (uid_of p) (ground (arith, native, kept, text_eq_iff (uid_of p) (uid_of p))),
    covered ps (λ uid e. h uid (ground (arith, e))),
  )
