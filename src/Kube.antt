-- ===== src/Kube.antt =====
-- The Kubernetes objects that the operator reads and writes (k8s.io/api, k8s.io/apimachinery), with
-- the fields that its code uses, and the errors that its code returns.
use reloader_operator.Base.{
  ◌≡◌, refl, ◌⊎◌, inl, inr, ℕ, String, Bool, false, Option, List, GoMap, StringMap, concat, [], ◌∷◌,
}

-- An error: its text (`err.Error()`), and whether `apierrors.IsNotFound` holds of it.
pub record GoError : Type 0 where
  pub text : String
  pub is_not_found : Bool

-- `fmt.Errorf` with no `%w`
abbrev pub errorf : List String → GoError
errorf pieces = record { text = concat pieces; is_not_found = false }

-- `fmt.Errorf("<context>: %w", err)`; `IsNotFound` looks through the wrapper.
abbrev pub wrap : List String → GoError → GoError
wrap context e = record e { text = concat (concat context ∷ ": " ∷ e.text ∷ []) }

-- A pair `(value, error)` of which one part is set.
pub data Result {ℓ} (A : Type ℓ) : Type ℓ where
  ok : A → Result A
  err : GoError → Result A

pub Result-cases {ℓ} :
    {A : Type ℓ} (r : Result A) → ((a : A) × (r ≡ ok a)) ⊎ ((e : GoError) × (r ≡ err e))
Result-cases (ok a) = inl (a, refl)
Result-cases (err e) = inr (e, refl)

-- An `error` result with no value beside it; `none` is nil.
abbrev pub Failure : Type 0
Failure = Option GoError

-- A byte slice.
abbrev pub Bytes : Type 0
Bytes = List ℕ

pub record ObjectKey : Type 0 where
  pub namespace : String
  pub name : String

-- References hold the name of the object that they point to; `none` is a nil pointer.
pub record EnvVarSource : Type 0 where
  pub secret_key_ref : Option String
  pub config_map_key_ref : Option String

pub record EnvVar : Type 0 where
  pub name : String
  pub value : String
  pub value_from : Option EnvVarSource

pub record EnvFromSource : Type 0 where
  pub secret_ref : Option String
  pub config_map_ref : Option String

pub record Container : Type 0 where
  pub name : String
  pub env : List EnvVar
  pub env_from : List EnvFromSource

pub record VolumeProjection : Type 0 where
  pub secret : Option String
  pub config_map : Option String

pub record Volume : Type 0 where
  pub secret : Option String
  pub config_map : Option String
  pub projected : Option (List VolumeProjection)

pub record PodSpec : Type 0 where
  pub containers : List Container
  pub init_containers : List Container
  pub volumes : List Volume

pub record PodTemplateSpec : Type 0 where
  pub annotations : StringMap
  pub spec : PodSpec

pub record LabelSelector : Type 0 where
  pub match_labels : StringMap

-- A Deployment, StatefulSet or DaemonSet: they agree in the fields that the code uses.
pub record Workload : Type 0 where
  pub name : String
  pub namespace : String
  pub annotations : StringMap
  pub selector : Option LabelSelector
  pub template : PodTemplateSpec

-- The Go types of workloads.
pub data WorkloadType : Type 0 where
  deployment stateful_set daemon_set : WorkloadType

pub record Pod : Type 0 where
  pub name : String
  pub namespace : String

pub record Secret : Type 0 where
  pub name : String
  pub namespace : String
  pub labels : StringMap
  pub annotations : StringMap
  pub contents : GoMap Bytes

pub record ConfigMap : Type 0 where
  pub name : String
  pub namespace : String
  pub labels : StringMap
  pub annotations : StringMap
  pub contents : StringMap
  pub binary_data : GoMap Bytes

-- `client.Object`, at the types that the operator hands to the client
pub data Object : Type 0 where
  workload : WorkloadType → Workload → Object
  secret : Secret → Object
  config_map : ConfigMap → Object

-- The methods of `metav1.Object`.
abbrev pub get_annotations : Object → StringMap
get_annotations (workload t w) = w.annotations
get_annotations (secret s) = s.annotations
get_annotations (config_map c) = c.annotations

abbrev pub set_annotations : StringMap → Object → Object
set_annotations m (workload t w) = workload t (record w { annotations = m })
set_annotations m (secret s) = secret (record s { annotations = m })
set_annotations m (config_map c) = config_map (record c { annotations = m })

abbrev pub get_name : Object → String
get_name (workload t w) = w.name
get_name (secret s) = s.name
get_name (config_map c) = c.name

abbrev pub get_namespace : Object → String
get_namespace (workload t w) = w.namespace
get_namespace (secret s) = s.namespace
get_namespace (config_map c) = c.namespace
