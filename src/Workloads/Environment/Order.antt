-- ===== src/Workloads/Environment/Order.antt =====
-- The order of the environment of a container (pkg/maclet/workload_env.go).
use maclet.Prelude.{
  ◌≡◌, refl, ◌∙◌, ap, sym, Bool, false, ◌||◌, Option, none, some, List, [], ◌∷◌, ◌++◌, arith, ◌==◌,
  text_eq, text_eq_instance, text_eq_iff, Bool-cases, inl, inr, contains,
}
use maclet.Prelude.Exec.Triples.{
  Holds, Triple, Triple-pure, Triple-fail, Triple-if, Triple-bind, Triple-any, Triple-given,
}
use maclet.Prelude.Text.{Text}
use maclet.Resolver.{sort_texts}
use maclet.Resolver.Nameservers.{IsAscending, IsDistinct, sort-IsAscending}
use maclet.Workloads.Environment.{
  Values, Ref, EnvFromSource, EnvVar, PodFields, Read, Answer, both_sources, no_source, empty_name,
  lookup, or_empty, keys, put, put_all, assignments_for, environment_of, get_object, add_data,
  source_values, add_sources, variable_value, add_variables, resolve_container_environment,
  config_map, secret,
}

text_eq_sym : (a b : Text) → text_eq a b ≡ false → text_eq b a ≡ false
text_eq_sym a b apart = elim (Bool-cases (text_eq b a)) [
  | inl same ↦ ground (arith, apart, (text_eq_iff a b).1 (sym ((text_eq_iff b a).0 same)))
  | inr other ↦ other
]

contains-keys-put :
    (k v n : Text) (vs : Values)
    → contains (keys (put k v vs)) n ≡ (text_eq k n || contains (keys vs) n)
unfolding put contains
contains-keys-put k v n [] = refl
contains-keys-put k v n ((m, w) ∷ vs) = elim (Bool-cases (text_eq m k)) [
  | inl same ↦
      let at_head = ap (λ t. text_eq t n) ((text_eq_iff m k).0 same) in
      ground (arith, same, at_head)
  | inr other ↦ ground (arith, other, contains-keys-put k v n vs)
]

put-IsDistinct : (k v : Text) (vs : Values) → IsDistinct (keys vs) → IsDistinct (keys (put k v vs))
unfolding put contains
put-IsDistinct k v [] d = (refl, tt)
put-IsDistinct k v ((m, w) ∷ vs) d = elim (Bool-cases (text_eq m k)) [
  | inl same ↦ rw same d
  | inr other ↦ rw other (
    contains-keys-put k v m vs ∙ ground (arith, text_eq_sym m k other, d.0),
    put-IsDistinct k v vs d.1,
  )
]

put_all-IsDistinct :
    (prefix : Text) (d : Values) (ks : List Text) (vs : Values)
    → IsDistinct (keys vs)
    → IsDistinct (keys (put_all prefix d ks vs))
unfolding put_all
put_all-IsDistinct prefix d [] vs h = h
put_all-IsDistinct prefix d (k ∷ ks) vs h =
    put_all-IsDistinct prefix d ks (put (prefix ++ k) (or_empty (lookup k d)) vs)
      (put-IsDistinct (prefix ++ k) (or_empty (lookup k d)) vs h)

-- The names stand in ascending order, so each stands once.
abbrev pub IsInOrder : List Text → Type 0
IsInOrder env =
    (vs : Values) × (names : List Text) × IsAscending names × (env ≡ assignments_for vs names)

module _ (api : List Read → Read → Answer) (has_client : Bool) (node_ip : Text)
    (pod : PodFields) where
  add_data-IsDistinct :
      (prefix : Text) (vs : Values) (d : Option Values)
      → IsDistinct (keys vs)
      → IsDistinct (keys (add_data api has_client node_ip pod prefix vs d))
  add_data-IsDistinct prefix vs none h = h
  add_data-IsDistinct prefix vs (some d) h = put_all-IsDistinct prefix d (sort_texts (keys d)) vs h

  Triple-source :
      (prefix : Text) (vs : Values) (c s : Option Ref)
      → IsDistinct (keys vs)
      → Triple
          (λ g. Unit {0})
          (λ ws g. IsDistinct (keys ws))
          (source_values api has_client node_ip pod prefix vs c s)
  Triple-source prefix vs (some c) (some s) h = Triple-fail both_sources
  Triple-source prefix vs (some c) none h =
      Triple-bind {Q = λ d g. Unit {0}}
        (Triple-any (get_object api has_client node_ip pod config_map c))
        (λ d.
          Triple-pure (add_data api has_client node_ip pod prefix vs d)
            (λ g p. add_data-IsDistinct prefix vs d h))
  Triple-source prefix vs none (some s) h =
      Triple-bind {Q = λ d g. Unit {0}}
        (Triple-any (get_object api has_client node_ip pod secret s))
        (λ d.
          Triple-pure (add_data api has_client node_ip pod prefix vs d)
            (λ g p. add_data-IsDistinct prefix vs d h))
  Triple-source prefix vs none none h = Triple-fail no_source

  Triple-sources :
      (ss : List EnvFromSource) (vs : Values)
      → IsDistinct (keys vs)
      → Triple
          (λ g. Unit {0})
          (λ ws g. IsDistinct (keys ws))
          (add_sources api has_client node_ip pod ss vs)
  unfolding add_sources
  Triple-sources [] vs h = Triple-pure vs (λ g p. h)
  Triple-sources (s ∷ ss) vs h =
      Triple-bind (Triple-source s.prefix vs s.config_map s.secret h)
        (λ ws. Triple-given (Triple-sources ss ws))

  Triple-variables :
      (es : List EnvVar) (vs : Values)
      → IsDistinct (keys vs)
      → Triple
          (λ g. Unit {0})
          (λ ws g. IsDistinct (keys ws))
          (add_variables api has_client node_ip pod es vs)
  unfolding add_variables
  Triple-variables [] vs h = Triple-pure vs (λ g p. h)
  Triple-variables (e ∷ es) vs h =
      Triple-if {b = e.name == []} (λ x. Triple-fail empty_name)
        (λ x.
          Triple-bind {Q = λ a g. Unit {0}}
            (Triple-any (variable_value api has_client node_ip pod e.value e.value_from))
            (λ a. Triple-variables es (put e.name a vs) (put-IsDistinct e.name a vs h)))

  -- An environment lists each name once with its value, in the order of the names, whatever the sources
  -- hold and how often they set a name.
  pub resolve_container_environment-IsInOrder :
      (sources : List EnvFromSource) (variables : List EnvVar) (h : List Read)
      → Holds
          (λ env g. IsInOrder env)
          (resolve_container_environment api has_client node_ip pod sources variables h).0
          (resolve_container_environment api has_client node_ip pod sources variables h).1
  unfolding resolve_container_environment environment_of
  resolve_container_environment-IsInOrder sources variables h =
      (Triple-bind {P = λ g. Unit {0}} (Triple-sources sources [] tt) (λ vs.
          Triple-bind (Triple-given (Triple-variables variables vs)) (λ all.
            Triple-pure (environment_of all)
              (λ g d. (all, sort_texts (keys all), sort-IsAscending (keys all) d, refl))))).at
        h tt
