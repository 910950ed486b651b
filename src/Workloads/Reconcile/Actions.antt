-- ===== src/Workloads/Reconcile/Actions.antt =====
-- What a pass (pkg/maclet/workload_reconcile.go) can do: the single actions that its stages are made
-- of. An invariant that these actions keep is kept by every stage.
use maclet.Prelude.{
  ℕ, ◌≡◌, Bool, true, false, not, ◌||◌, ◌&&◌, Option, none, some, ◌∷◌, arith, ◌==◌,
  text_eq_instance, ok,
}
use maclet.Prelude.Exec.Keeps.{
  Anything, Ensures, Ensures-pure, Ensures-fail, Ensures-if, Ensures-bind,
}
use maclet.Prelude.Text.{Text, codes}
use maclet.Go.Numbers.{ℤ}
use maclet.Network.Handle.{Handle, handle_validate_address}
use maclet.Workloads.Pods.{Pod}
use maclet.Workloads.Status.{Report}
use maclet.Workloads.Managed.{Managed, put, retain_workload}
use maclet.Workloads.Removal.{Call, add_ip, persist, report}
use maclet.Workloads.Reconcile.{
  Fault, not_reported, Trouble, Host, Settings, World, skip_pod, uid_of, note, keep, ask,
  retry_later, explained, pending, refuse, report_or_note, persisted, is_done,
}
use maclet.Workloads.Reconcile.Endings.{stays_ended}

-- A report fits its Pod: the Pod is native or deleted, and it is reported as ended only if it is
-- deleted or is not started again.
abbrev pub is_terminal : Text → Bool
is_terminal phase = phase == codes "Succeeded" || phase == codes "Failed"

abbrev pub is_deleted : Pod → Bool
is_deleted p = elim p.deleted_at [ none ↦ false | some t ↦ true ]

abbrev pub fits : Pod → Report → Bool
fits p r =
    (p.native || is_deleted p) && (not (is_terminal r.phase) || is_deleted p || stays_ended p)

-- The network takes the address.
abbrev pub IsValidFor : Option Handle → Text → Type 0
IsValidFor none ip = ⊥
IsValidFor (some h) ip = handle_validate_address h ip ≡ ok tt

-- What holds of each call that a pass makes
abbrev pub IsAllowed : Option Handle → Call → Type 0
IsAllowed network (add_ip ip) = IsValidFor network ip
IsAllowed network (report p r) = fits p r ≡ true
IsAllowed network c = Unit

-- Errors and allowed calls keep the invariant.
pub record IsQuiet (network : Option Handle) (P : World → Type 0) : Type 0 where
  pub on_note : (w : World) (t : Trouble) → P w → P (record w { errors = t ∷ w.errors })
  pub on_call :
      (w : World) (c : Call) → IsAllowed network c → P w → P (record w { calls = c ∷ w.calls })

-- So do the actions on the workload of one UID.
pub record IsClosed (network : Option Handle) (uid : Text) (P : World → Type 0) : Type 0 where
  pub quiet : IsQuiet network P
  pub on_see : (w : World) → P w → P (record w { seen = uid ∷ w.seen })
  pub on_use : (w : World) (ip : Text) → P w → P (record w { used = ip ∷ w.used })
  pub on_keep :
      (w : World) (m : Managed)
      → m.uid ≡ uid
      → P w
      → P (record w { manager = record w.manager { workloads = put m w.manager.workloads } })
  pub on_retain :
      (w : World) (m : Managed) (log_ttl now : ℕ)
      → m.uid ≡ uid
      → P w
      → P (record w { manager = retain_workload log_ttl now m w.manager })

module _ (host : Host) (settings : Settings) {P : World → Type 0}
    (quiet : IsQuiet settings.network P) where
  pub Ensures-note : (key : Text) (f : Fault) → Ensures P Anything (note key f)
  unfolding note
  Ensures-note key f = record {
    at = λ w p. (quiet.on_note w record { fault = f; uid = key } p, tt);
  }

  pub Ensures-ask :
      (c : Call) → IsAllowed settings.network c → Ensures P Anything (ask host settings c)
  unfolding ask
  Ensures-ask c a = record { at = λ w p. (quiet.on_call w c a p, tt) }

  pub Ensures-pending :
      (p : Pod) (ip reason message : Text) (count : ℤ)
      → p.native ≡ true
      → Ensures P Anything (pending host settings p ip reason message count)
  unfolding pending
  Ensures-pending p ip reason message count n =
      Ensures-bind (Ensures-ask _ (ground arith)) (λ o u. Ensures-pure tt tt)

  pub Ensures-explained : (f : Fault) → Ensures P Anything (explained host settings f)
  unfolding explained
  Ensures-explained f = record { at = λ w p. (p, tt) }

  -- A refusal ends the work on its Pod, so anything holds of what it returns.
  pub Ensures-refuse :
      {Q : Unit {0} → Type 0} (p : Pod) (ip : Text) (fault : Fault) (reason : Text) (count : ℤ)
      → p.native ≡ true
      → Ensures P Q (refuse host settings p ip fault reason count)
  unfolding refuse
  Ensures-refuse p ip fault reason count n = Ensures-bind (Ensures-note (uid_of p) fault) (λ a u.
      Ensures-bind (Ensures-explained fault) (λ message v.
        Ensures-bind (Ensures-pending p ip reason message count n) (λ b x. Ensures-fail skip_pod)))

  pub Ensures-report_or_note :
      (p : Pod) (r : Report)
      → fits p r ≡ true
      → Ensures P Anything (report_or_note host settings p r)
  unfolding report_or_note
  Ensures-report_or_note p r f =
      Ensures-bind (Ensures-ask (report p r) f)
        (λ o u. Ensures-if (λ e. Ensures-pure tt tt) (λ e. Ensures-note (uid_of p) not_reported))

  pub Ensures-persisted : Ensures P Anything (persisted host settings)
  unfolding persisted
  Ensures-persisted = Ensures-bind (Ensures-ask persist tt) (λ o u. Ensures-pure (is_done o) tt)

module _ (host : Host) (settings : Settings) {uid : Text} {P : World → Type 0}
    (closed : IsClosed settings.network uid P) where
  pub Ensures-keep : (m : Managed) → m.uid ≡ uid → Ensures P Anything (keep m)
  unfolding keep
  Ensures-keep m e = record { at = λ w p. (closed.on_keep w m e p, tt) }

  pub Ensures-retry_later :
      (m : Managed) → m.uid ≡ uid → Ensures P Anything (retry_later host settings m)
  unfolding retry_later keep
  Ensures-retry_later m e = record { at = λ w p. (closed.on_keep w _ e p, tt) }
