-- ===== src/Workloads/Environment.antt =====
-- The environment of a container (pkg/maclet/workload_env.go): resolveContainerEnvironment with what it
-- reads from ConfigMaps, Secrets and the Pod, and redactMackerArgs. The API server is an oracle that
-- answers a read by all reads made so far, newest first.
pub mod Redaction
pub mod Values
pub mod Order
mod Tests
use maclet.Prelude.{
  ℕ, Bool, true, false, not, ◌||◌, ◌&&◌, Option, none, some, List, [], ◌∷◌, ◌++◌, String, eqb, ◌==◌,
  text_eq, text_eq_instance, if◌then◌else◌, Result, ok, err, map,
}
use maclet.Prelude.Exec.{Exec, pure, fail, lift}
use maclet.Prelude.Exec.Bind.{◌>>=◌, ◌>>◌}
use maclet.Prelude.Text.{
  Text, codes, contains_char, has_prefix, has_suffix, trim_prefix, trim_suffix, trim_space,
}
use maclet.Resolver.{sort_texts}

-- The data of a ConfigMap or a Secret, and the environment so far: maps, where the first entry of a name
-- counts
abbrev pub Values : Type 0
Values = List (Text × Text)

pub record Ref : Type 0 where
  pub name : Text
  pub optional : Bool

pub record KeySelector : Type 0 where
  pub object : Ref
  pub key : Text

pub record EnvFromSource : Type 0 where
  pub prefix : Text
  pub config_map : Option Ref
  pub secret : Option Ref

pub record EnvVarSource : Type 0 where
  pub field_ref : Option Text
  pub secret_key : Option KeySelector
  pub config_map_key : Option KeySelector
  pub resource_field : Bool

pub record EnvVar : Type 0 where
  pub name : Text
  pub value : Text
  pub value_from : Option EnvVarSource

-- What the downward API shows of a Pod; `managed_ip` is empty where the manager has no address for it.
pub record PodFields : Type 0 where
  pub namespace : Text
  pub name : Text
  pub uid : Text
  pub node_name : Text
  pub service_account : Text
  pub pod_ip : Text
  pub host_ip : Text
  pub labels : Values
  pub annotations : Values
  pub managed_ip : Text

pub data ObjectKind : Type 0 where
  config_map secret : ObjectKind

pub record Read : Type 0 where
  pub kind : ObjectKind
  pub namespace : Text
  pub name : Text

-- A body that decodes, one that does not, an HTTPError with its code, any other error
pub data Answer : Type 0 where
  holds : Values → Answer
  garbled unreachable : Answer
  status : ℕ → Answer

pub data EnvError : Type 0 where
  both_sources no_source empty_name no_object_name no_client not_read not_decoded : EnvError
  no_key unsupported_field unsupported_source : EnvError

abbrev pub Io : Type 0 → Type 0
Io A = Exec EnvError (List Read) A

unfoldable pub lookup : Text → Values → Option Text
lookup k [] = none
lookup k ((n, v) ∷ vs) = if text_eq n k then some v else lookup k vs

abbrev pub or_empty : Option Text → Text
or_empty none = []
or_empty (some v) = v

abbrev pub keys : Values → List Text
keys [] = []
keys ((k, v) ∷ vs) = k ∷ keys vs

-- values[key] = value
unfoldable pub put : Text → Text → Values → Values
put k v [] = (k, v) ∷ []
put k v ((n, w) ∷ vs) = let rest = put k v vs in if text_eq n k then (n, v) ∷ vs else (n, w) ∷ rest

unfoldable pub put_all : Text → Values → List Text → Values → Values
unfolding put lookup
put_all prefix data_of [] vs = vs
put_all prefix data_of (k ∷ ks) vs =
    put_all prefix data_of ks (put (prefix ++ k) (or_empty (lookup k data_of)) vs)

abbrev pub assignment : Text → Text → Text
assignment name value = name ++ b'=' ∷ value

abbrev pub assignments_for : Values → List Text → List Text
assignments_for vs [] = []
assignments_for vs (k ∷ ks) = assignment k (or_empty (lookup k vs)) ∷ assignments_for vs ks

-- The names in order, each with its value
unfoldable pub environment_of : Values → List Text
unfolding sort_texts lookup
environment_of vs = assignments_for vs (sort_texts (keys vs))

unfoldable pub metadata_field_key : Text → Text → Option Text
unfolding has_prefix has_suffix trim_prefix trim_suffix contains_char
metadata_field_key path field =
    let prefix = codes "metadata." ++ field ++ codes "['" in
    let key = trim_suffix (trim_prefix path prefix) (codes "']") in
    if not (has_prefix path prefix) || not (has_suffix path (codes "']"))
    then none
    else if key == [] || contains_char 13 key || contains_char 10 key
    then none
    else some key

abbrev pub metadata_value : PodFields → Option Text → Option Text → Result EnvError Text
metadata_value p (some label) k = ok (or_empty (lookup label p.labels))
metadata_value p none (some annotation) = ok (or_empty (lookup annotation p.annotations))
metadata_value p none none = err unsupported_field

unfoldable pub downward_api_value : PodFields → Text → Text → Result EnvError Text
unfolding trim_space metadata_field_key lookup
downward_api_value p node_ip path =
    let f = trim_space path in
    if f == codes "metadata.name"
    then ok p.name
    else if f == codes "metadata.namespace"
    then ok p.namespace
    else if f == codes "metadata.uid"
    then ok p.uid
    else if f == codes "spec.nodeName"
    then ok p.node_name
    else if f == codes "spec.serviceAccountName"
    then ok p.service_account
    else if f == codes "status.podIP"
    then ok (if p.pod_ip == [] then p.managed_ip else p.pod_ip)
    else if f == codes "status.hostIP"
    then ok (if p.host_ip == [] then node_ip else p.host_ip)
    else metadata_value p (metadata_field_key f (codes "labels"))
        (metadata_field_key f (codes "annotations"))

-- What a read gives: none where an optional object is not there
unfoldable pub found : Bool → Answer → Result EnvError (Option Values)
found optional (holds vs) = ok (some vs)
found optional garbled = err not_decoded
found optional unreachable = err not_read
found optional (status code) = if optional && eqb code 404 then ok none else err not_read

-- The value of a key: empty where the optional object is not there
unfoldable pub value_of_key : Text → Option Values → Result EnvError Text
unfolding lookup
value_of_key key none = ok []
value_of_key key (some vs) = elim (lookup key vs) [ none ↦ err no_key | some v ↦ ok v ]

-- `has_client` says whether there is a client that may read these objects, `node_ip` is the address of
-- the Node.
module _ (api : List Read → Read → Answer) (has_client : Bool) (node_ip : Text)
    (pod : PodFields) where
  unfoldable pub read_object : Read → Io Answer
  read_object r h = (ok (api h r), r ∷ h)

  -- getConfigMap and getSecret
  unfoldable pub get_object : ObjectKind → Ref → Io (Option Values)
  unfolding read_object found
  get_object kind r =
      if r.name == []
      then fail no_object_name
      else if not has_client
      then fail no_client
      else read_object record { kind = kind; namespace = pod.namespace; name = r.name }
        >>= λ answer. lift (found r.optional answer)

  unfoldable pub value_of_selector : ObjectKind → KeySelector → Io Text
  unfolding get_object value_of_key
  value_of_selector kind s = get_object kind s.object >>= λ vs. lift (value_of_key s.key vs)

  unfoldable pub resolve_env_value : EnvVarSource → Io Text
  unfolding downward_api_value value_of_selector
  resolve_env_value source = elim source.field_ref [
    | some path ↦ lift (downward_api_value pod node_ip path)
    | none ↦ elim source.secret_key [
      | some s ↦ value_of_selector secret s
      | none ↦ elim source.config_map_key [
        | some s ↦ value_of_selector config_map s
        | none ↦ fail unsupported_source
      ]
    ]
  ]

  abbrev pub add_data : Text → Values → Option Values → Values
  add_data prefix vs none = vs
  add_data prefix vs (some d) = put_all prefix d (sort_texts (keys d)) vs

  abbrev pub source_values : Text → Values → Option Ref → Option Ref → Io Values
  source_values prefix vs (some c) (some s) = fail both_sources
  source_values prefix vs (some c) none =
      get_object config_map c >>= λ d. pure (add_data prefix vs d)
  source_values prefix vs none (some s) = get_object secret s >>= λ d. pure (add_data prefix vs d)
  source_values prefix vs none none = fail no_source

  -- The loop over envFrom
  unfoldable pub add_sources : List EnvFromSource → Values → Io Values
  unfolding get_object put_all sort_texts
  add_sources [] vs = pure vs
  add_sources (s ∷ ss) vs = source_values s.prefix vs s.config_map s.secret >>= add_sources ss

  abbrev pub variable_value : Text → Option EnvVarSource → Io Text
  variable_value value none = pure value
  variable_value value (some source) = resolve_env_value source

  -- The loop over env
  unfoldable pub add_variables : List EnvVar → Values → Io Values
  unfolding resolve_env_value put
  add_variables [] vs = pure vs
  add_variables (e ∷ es) vs =
      let next =
        variable_value e.value e.value_from >>= λ value. add_variables es (put e.name value vs) in
      if e.name == [] then fail empty_name else next

  unfoldable pub resolve_container_environment : List EnvFromSource → List EnvVar → Io (List Text)
  unfolding add_sources add_variables environment_of
  resolve_container_environment sources variables = add_sources sources [] >>= λ vs.
      add_variables variables vs >>= λ all. pure (environment_of all)

-- What stands behind the first `=` is replaced.
unfoldable pub redact : Text → Text
redact [] = []
redact (c ∷ s) = let rest = redact s in if eqb c b'=' then codes "=<redacted>" else c ∷ rest

-- The loop, from an argument on; its successor is redacted if it is `--env`.
unfoldable pub redact_after : List Text → Text → List Text
unfolding redact
redact_after [] a = a ∷ []
redact_after (b ∷ rest) a = a ∷ redact_after rest (if a == codes "--env" then redact b else b)

-- redactMackerArgs before the arguments are quoted and joined
unfoldable pub redact_macker_args : List Text → List Text
unfolding redact_after
redact_macker_args [] = []
redact_macker_args (a ∷ rest) = redact_after rest a
