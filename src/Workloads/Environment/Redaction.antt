-- ===== src/Workloads/Environment/Redaction.antt =====
-- What the debug line of a run shows of its arguments (pkg/maclet/workload_env.go, workload_mounts.go).
use maclet.Prelude.{
  ℕ, ◌≡◌, refl, ◌∙◌, ap, sym, not, Option, List, [], ◌∷◌, ◌++◌, arith, eqb, ◌==◌, text_eq_instance,
  if◌then◌else◌, Result, ok, err, ◌>>=◌, Bool-cases, inl, inr, append_assoc,
}
use maclet.Prelude.Text.{Text, codes}
use maclet.Network.Handle.{Handle}
use maclet.Resolver.{sort_texts}
use maclet.Workloads.Arguments.{
  ArgError, RunSpec, RunInputs, working_directory, environment_args, all_port_args, network_of,
  command_args, rest_of, external_args, host_network_run_args, external_run_args, run_args,
}
use maclet.Workloads.Environment.{
  Values, lookup, or_empty, keys, assignment, assignments_for, environment_of, redact, redact_after,
  redact_macker_args,
}

redact-assignment : (k v w : Text) → redact (assignment k v) ≡ redact (assignment k w)
unfolding redact
redact-assignment [] v w = refl
redact-assignment (c ∷ k) v w =
    ap (λ r. if eqb c b'=' then codes "=<redacted>" else c ∷ r) (redact-assignment k v w)

-- A flag of the environment redacts what follows it, wherever it stands.
redact_after-flag :
    (a e : Text) (rest : List Text)
    → redact_after (codes "--env" ∷ e ∷ rest) a ≡ a ∷ codes "--env" ∷ redact_after rest (redact e)
unfolding redact_after redact
redact_after-flag a e rest = elim (Bool-cases (a == codes "--env")) [
  | inl y ↦ rw y refl
  | inr n ↦ rw n refl
]

-- Both logs go on alike behind the environment.
redact_after-assignments :
    (vs ws : Values) (ks ys : List Text) (a : Text)
    → redact_after (environment_args (assignments_for vs ks) ++ ys) a
      ≡ redact_after (environment_args (assignments_for ws ks) ++ ys) a
redact_after-assignments vs ws [] ys a = refl
redact_after-assignments vs ws (k ∷ ks) ys a =
    let v = or_empty (lookup k vs) in
    let w = or_empty (lookup k ws) in
    redact_after-flag a (assignment k v) (environment_args (assignments_for vs ks) ++ ys)
    ∙ ap (λ e. a ∷ codes "--env" ∷ redact_after (environment_args (assignments_for vs ks) ++ ys) e)
        (redact-assignment k v w)
    ∙ ap (λ r. a ∷ codes "--env" ∷ r)
        (redact_after-assignments vs ws ks ys (redact (assignment k w)))
    ∙ sym (redact_after-flag a (assignment k w) (environment_args (assignments_for ws ks) ++ ys))

redact_after-append :
    (xs ys zs : List Text)
    → ((a : Text) → redact_after ys a ≡ redact_after zs a)
    → (a : Text) → redact_after (xs ++ ys) a ≡ redact_after (xs ++ zs) a
unfolding redact_after
redact_after-append [] ys zs h a = h a
redact_after-append (x ∷ xs) ys zs h a =
    ap (λ r. a ∷ r) (redact_after-append xs ys zs h (if a == codes "--env" then redact x else x))

-- The arguments in the debug line of a run, if they are made
abbrev pub debug_line : Result ArgError (List Text) → Result ArgError (List Text)
debug_line (ok args) = ok (redact_macker_args args)
debug_line (err e) = err e

debug_line-bind :
    {A : Type 0} (r : Result ArgError A) (f g : A → Result ArgError (List Text))
    → ((a : A) → debug_line (f a) ≡ debug_line (g a))
    → debug_line (r >>= f) ≡ debug_line (r >>= g)
debug_line-bind (ok a) f g h = h a
debug_line-bind (err e) f g h = refl

abbrev pub with_values : RunInputs → Values → RunInputs
with_values i us = record i { environment = ok (environment_of us) }

module _ (upper : ℕ → ℕ) (vs ws : Values) (same : keys vs ≡ keys ws) where
  redact_after-environment :
      (ys : List Text) (a : Text)
      → redact_after (environment_args (environment_of vs) ++ ys) a
        ≡ redact_after (environment_args (environment_of ws) ++ ys) a
  unfolding environment_of
  redact_after-environment ys a =
      ap (λ ks. redact_after (environment_args (assignments_for vs (sort_texts ks)) ++ ys) a) same
      ∙ redact_after-assignments vs ws (sort_texts (keys ws)) ys a

  -- Arguments that begin with `run`, with two lists behind the environment
  debug_line-run :
      (xs ps cs : List Text)
      → debug_line (ok (codes "run" ∷ (xs ++ environment_args (environment_of vs) ++ ps ++ cs)))
        ≡ debug_line (ok (codes "run" ∷ (xs ++ environment_args (environment_of ws) ++ ps ++ cs)))
  unfolding redact_macker_args
  debug_line-run xs ps cs =
      let e = environment_args (environment_of vs) in
      let f = environment_args (environment_of ws) in
      ap ok (
        ap (λ l. redact_after l (codes "run"))
          (append_assoc (xs ++ e) ps cs ∙ append_assoc xs e (ps ++ cs))
        ∙ redact_after-append xs (e ++ (ps ++ cs)) (f ++ (ps ++ cs))
            (redact_after-environment (ps ++ cs)) (codes "run")
        ∙ sym (
            ap (λ l. redact_after l (codes "run"))
              (append_assoc (xs ++ f) ps cs ∙ append_assoc xs f (ps ++ cs))))

  debug_line-host :
      (i : RunInputs) (c : RunSpec)
      → debug_line (host_network_run_args upper (with_values i vs) c)
        ≡ debug_line (host_network_run_args upper (with_values i ws) c)
  unfolding host_network_run_args
  debug_line-host i c = elim (Bool-cases (c.image == [])) [
    | inl y ↦ rw y refl
    | inr n ↦ rw n (
        debug_line-bind (working_directory c.working_dir) _ _ (λ directory.
          debug_line-bind i.volume_args _ _ (λ volumes.
            debug_line-bind (all_port_args upper (not i.disable_port_forward) 1 c.ports) _ _
              (λ ports.
                debug_line-run
                  ((codes "--detach" ∷ codes "--net=host" ∷ codes "--name" ∷ i.container_name ∷ [])
                    ++ directory
                    ++ volumes)
                  ports (command_args upper c)))))
  ]

  debug_line-external :
      (network : Option Handle) (i : RunInputs) (c : RunSpec)
      → debug_line (external_run_args upper network (with_values i vs) c)
        ≡ debug_line (external_run_args upper network (with_values i ws) c)
  unfolding external_run_args
  debug_line-external network i c = elim (Bool-cases (c.image == [])) [
    | inl y ↦ rw y refl
    | inr n ↦ rw n (
        debug_line-bind (working_directory c.working_dir) _ _ (λ directory.
          debug_line-bind i.volume_args _ _ (λ volumes.
            debug_line-bind (network_of upper network) _ _ (λ h.
              debug_line-bind (all_port_args upper (not i.disable_port_forward) 1 c.ports) _ _
                (λ ports.
                  debug_line-run (rest_of upper (external_args upper h i) ++ volumes ++ directory)
                    ports (command_args upper c))))))
  ]

  -- The debug line before a run, which has the arguments as redactMackerArgs gives them, does not depend
  -- on the values of the environment: with two environments of the same names the line is the same, or the
  -- arguments cannot be made for the same reason. Nothing is said of other lines, such as the error of
  -- a run that failed, which has the arguments as they are.
  pub debug_line-run_args :
      (network : Option Handle) (i : RunInputs) (c : RunSpec)
      → debug_line (run_args upper network (with_values i vs) c)
        ≡ debug_line (run_args upper network (with_values i ws) c)
  unfolding run_args
  debug_line-run_args network i c =
      ground (arith, debug_line-host i c, debug_line-external network i c)
