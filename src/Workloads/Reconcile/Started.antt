-- ===== src/Workloads/Reconcile/Started.antt =====
-- What the start, the stop and the retirement of one workload keep
-- (pkg/maclet/workload_reconcile.go).
use maclet.Prelude.{
  ◌≡◌, ◌∙◌, true, false, Option, none, some, List, [], ◌∷◌, ◌==◌, text_eq_instance, if◌then◌else◌,
  Bool-cases, inl, inr,
}
use maclet.Prelude.Exec.{pure}
use maclet.Prelude.Exec.Bind.{◌>>=◌}
use maclet.Prelude.Exec.Keeps.{Anything, Ensures, Ensures-pure, Ensures-if, Ensures-bind}
use maclet.Prelude.Text.{Text}
use maclet.Workloads.Managed.{Managed}
use maclet.Workloads.Removal.{Call, pull, start_run, Outcome, done, ignorable, failed}
use maclet.Workloads.Reconcile.{
  Host, Settings, World, is_done, has_network, ask, retain, archive_logs_of, remove, by_step,
  stop_container_of,
}
use maclet.Workloads.Reconcile.Launch.{after_run, start_workload, with_fresh}
use maclet.Workloads.Reconcile.Actions.{IsAllowed, IsClosed, Ensures-ask}
use maclet.Workloads.Reconcile.Removals.{
  stop-keeps, archive-keeps, remove_workload-keeps, replace_volume_paths-keeps,
}

module _ (host : Host) (settings : Settings) {uid : Text} {P : World → Type 0}
    (closed : IsClosed settings.network uid P) where
  abbrev pub IsOf : Managed → Type 0
  IsOf m = m.uid ≡ uid

  -- What holds of a list of calls, beside the rest of the state
  abbrev pub With : World → List Call → Type 0
  With w h = P (record w { calls = h })

  pub called :
      (w : World) (h : List Call) (c : Call)
      → IsAllowed settings.network c
      → With w h
      → With w (c ∷ h)
  called w h c a q = closed.quiet.on_call (record w { calls = h }) c a q

  pub Ensures-archive : (m : Managed) → IsOf m → Ensures P IsOf (archive_logs_of host settings m)
  unfolding archive_logs_of
  Ensures-archive m e = record {
    at = λ w p.
        let (q, same) =
          archive-keeps host.outcome settings.network {Q = With w} (called w)
            (has_network settings.network) settings.logs settings.log_ttl (host.now w.calls)
            settings.log_name m w.calls p in
        (q, same ∙ e);
  }

  pub Ensures-remove : (m : Managed) → IsOf m → Ensures P (λ r. IsOf r.1) (remove host settings m)
  unfolding remove
  Ensures-remove m e = record {
    at = λ w p.
        let (q, same) =
          remove_workload-keeps host.outcome settings.network {Q = With w} (called w)
            (has_network settings.network) settings.logs settings.log_ttl (host.now w.calls)
            settings.log_name m w.calls p in
        (q, same ∙ e);
  }

  pub Ensures-stop : (m : Managed) → Ensures P Anything (stop_container_of host settings m)
  unfolding stop_container_of by_step
  Ensures-stop m = record {
    at = λ w p. (
      stop-keeps host.outcome settings.network {Q = With w} (called w) m.container_name w.calls p,
      tt,
    );
  }

  pub Ensures-retain : (m : Managed) → IsOf m → Ensures P Anything (retain host settings m)
  unfolding retain
  Ensures-retain m e = record {
    at = λ w p. (closed.on_retain w m settings.log_ttl (host.now w.calls) e p, tt);
  }

  pub Ensures-with_fresh :
      (m : Managed) (fresh : Option (List Text))
      → IsOf m
      → Ensures P IsOf (with_fresh host settings m fresh)
  unfolding with_fresh
  Ensures-with_fresh m none e = record { at = λ w p. (p, e) }
  Ensures-with_fresh m (some paths) e = record {
    at = λ w p. (
      replace_volume_paths-keeps host.outcome settings.network {Q = With w} (called w) paths
          m.volume_paths w.calls p,
      e,
    );
  }

  pub Ensures-after_run :
      (args : List Text) (image : Text) (o : Outcome)
      → Ensures P Anything (after_run host settings args image o)
  unfolding after_run
  Ensures-after_run args image done = Ensures-pure true tt
  Ensures-after_run args image failed = Ensures-pure false tt
  Ensures-after_run args image ignorable =
      let again : Ensures P Anything (
          ask host settings (pull image) >>= λ pulled.
          if is_done pulled
          then (ask host settings (start_run args) >>= λ o. pure (is_done o))
          else pure false) =
        Ensures-bind (Ensures-ask host settings closed.quiet (pull image) tt) (λ o u.
          Ensures-if
            (λ e.
              Ensures-bind (Ensures-ask host settings closed.quiet (start_run args) tt)
                (λ o' v. Ensures-pure (is_done o') tt))
            (λ e. Ensures-pure false tt)) in
      elim (Bool-cases (image == [])) [ inl e ↦ rw e (Ensures-pure false tt) | inr e ↦ rw e again ]

  pub Ensures-start :
      (args : List Text) (image : Text)
      → Ensures P Anything (start_workload host settings args image)
  unfolding start_workload
  Ensures-start args image =
      Ensures-bind (Ensures-ask host settings closed.quiet (start_run args) tt)
        (λ o u. Ensures-after_run args image o)
