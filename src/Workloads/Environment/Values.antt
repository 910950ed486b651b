-- ===== src/Workloads/Environment/Values.antt =====
-- What stands in the environment of a container (pkg/maclet/workload_env.go).
use maclet.Prelude.{
  ◌≡◌, refl, ◌∙◌, ap, Bool, true, false, ◌||◌, none, some, List, [], ◌∷◌, ◌++◌, arith, ◌==◌,
  text_eq, text_eq_instance, same_refl, text_eq_iff, Bool-cases, inl, inr, contains,
}
use maclet.Prelude.Exec.Triples.{
  Holds, Triple, Triple-pure, Triple-fail, Triple-if, Triple-bind, Triple-any, Triple-given,
}
use maclet.Prelude.Text.{Text}
use maclet.Resolver.{sort_texts}
use maclet.Resolver.Nameservers.{contains-sort}
use maclet.Workloads.Environment.{
  Values, EnvFromSource, EnvVar, PodFields, Read, Answer, empty_name, lookup, or_empty, keys, put,
  assignment, assignments_for, environment_of, add_sources, variable_value, add_variables,
  resolve_container_environment,
}

lookup-put : (n v : Text) (vs : Values) → lookup n (put n v vs) ≡ some v
unfolding lookup put
lookup-put n v [] = ground (arith, same_refl n)
lookup-put n v ((k, w) ∷ vs) = ground (arith, lookup-put n v vs)

lookup-put_other :
    (n k v : Text) (vs : Values) → text_eq k n ≡ false → lookup n (put k v vs) ≡ lookup n vs
unfolding lookup put
lookup-put_other n k v [] other = ground (arith, other)
lookup-put_other n k v ((m, w) ∷ vs) other = elim (Bool-cases (text_eq m k)) [
  | inl this ↦
      let apart = ap (λ t. text_eq t n) ((text_eq_iff m k).0 this) ∙ other in
      ground (arith, this, apart)
  | inr that ↦ ground (arith, that, lookup-put_other n k v vs other)
]

contains-keys : (n v : Text) (vs : Values) → lookup n vs ≡ some v → contains (keys vs) n ≡ true
unfolding lookup contains
contains-keys n v [] h = ground (arith, h)
contains-keys n v ((k, w) ∷ vs) h = ground (arith, h, contains-keys n v vs)

contains-assignments :
    (n v : Text) (vs : Values) (ks : List Text)
    → lookup n vs ≡ some v
    → contains ks n ≡ true
    → contains (assignments_for vs ks) (assignment n v) ≡ true
unfolding contains
contains-assignments n v vs [] h c = ground (arith, c)
contains-assignments n v vs (k ∷ ks) h c = elim (Bool-cases (text_eq k n)) [
  | inl this ↦
      let value = ap (λ t. or_empty (lookup t vs)) ((text_eq_iff k n).0 this) ∙ ap or_empty h in
      let same =
        ap (λ t. assignment t (or_empty (lookup k vs))) ((text_eq_iff k n).0 this)
        ∙ ap (assignment n) value in
      ap (λ a. text_eq a (assignment n v) || contains (assignments_for vs ks) (assignment n v)) same
      ∙ ground (arith, same_refl (assignment n v))
  | inr that ↦ ground (arith, c, contains-assignments n v vs ks h)
]

contains-environment :
    (n v : Text) (vs : Values)
    → lookup n vs ≡ some v
    → contains (environment_of vs) (assignment n v) ≡ true
unfolding environment_of
contains-environment n v vs h =
    contains-assignments n v vs (sort_texts (keys vs)) h
      (contains-sort n (keys vs) ∙ contains-keys n v vs h)

-- A variable of this name is among them.
abbrev pub is_named : Text → List EnvVar → Bool
is_named n [] = false
is_named n (e ∷ es) = text_eq e.name n || is_named n es

module _ (api : List Read → Read → Answer) (has_client : Bool) (node_ip : Text)
    (pod : PodFields) where
  Triple-others :
      {P : List Read → Type 0} (n v : Text) (es : List EnvVar) (vs : Values)
      → is_named n es ≡ false
      → lookup n vs ≡ some v
      → Triple P (λ ws g. lookup n ws ≡ some v) (add_variables api has_client node_ip pod es vs)
  unfolding add_variables
  Triple-others n v [] vs other h = Triple-pure vs (λ g p. h)
  Triple-others n v (e ∷ es) vs other h =
      Triple-if {b = e.name == []} (λ x. Triple-fail empty_name)
        (λ x.
          Triple-bind {Q = λ value g. Unit {0}}
            (Triple-any (variable_value api has_client node_ip pod e.value e.value_from))
            (λ value.
              Triple-others n v es (put e.name value vs) (ground (arith, other))
                (lookup-put_other n e.name value vs (ground (arith, other)) ∙ h)))

  Triple-this :
      {P : List Read → Type 0} (name value : Text) (after : List EnvVar) (vs : Values)
      → is_named name after ≡ false
      → Triple P
          (λ ws g. lookup name ws ≡ some value)
          (add_variables api has_client node_ip pod
            (record { name = name; value = value; value_from = none } ∷ after)
            vs)
  unfolding add_variables
  Triple-this name value after vs other =
      Triple-if {b = name == []} (λ x. Triple-fail empty_name)
        (λ x. Triple-bind {Q = λ a g. a ≡ value} (Triple-pure value (λ g p. refl)) (λ a.
          Triple-given (λ p.
            Triple-others name value after (put name a vs) other
              (lookup-put name a vs ∙ ap some p))))

  Triple-behind :
      {P : List Read → Type 0} (name value : Text) (before after : List EnvVar) (vs : Values)
      → is_named name after ≡ false
      → Triple P
          (λ ws g. lookup name ws ≡ some value)
          (add_variables api has_client node_ip pod
            (before ++ record { name = name; value = value; value_from = none } ∷ after)
            vs)
  unfolding add_variables
  Triple-behind name value [] after vs other = Triple-this name value after vs other
  Triple-behind name value (e ∷ es) after vs other =
      Triple-if {b = e.name == []} (λ x. Triple-fail empty_name)
        (λ x.
          Triple-bind {Q = λ a g. Unit {0}}
            (Triple-any (variable_value api has_client node_ip pod e.value e.value_from))
            (λ a. Triple-behind name value es after (put e.name a vs) other))

  -- A variable with a plain value has that value in the environment if no variable behind it has its
  -- name, whatever the variables before it and the ConfigMaps and Secrets hold.
  pub contains-resolve_container_environment :
      (sources : List EnvFromSource) (name value : Text) (before after : List EnvVar)
      (h : List Read)
      → is_named name after ≡ false
      → Holds
          (λ env g. contains env (assignment name value) ≡ true)
          (resolve_container_environment api has_client node_ip pod sources
            (before ++ record { name = name; value = value; value_from = none } ∷ after)
            h).0
          (resolve_container_environment api has_client node_ip pod sources
            (before ++ record { name = name; value = value; value_from = none } ∷ after)
            h).1
  unfolding resolve_container_environment
  contains-resolve_container_environment sources name value before after h other =
      (Triple-bind {P = λ g. Unit {0}} {Q = λ vs g. Unit {0}}
          (Triple-any (add_sources api has_client node_ip pod sources []))
          (λ vs. Triple-bind (Triple-behind name value before after vs other) (λ all.
            Triple-pure (environment_of all) (λ g p. contains-environment name value all p)))).at
        h tt
