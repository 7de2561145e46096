-- ===== src/Util/PodReferences/RefersTo.antt =====
-- When a pod spec refers to a resource, as a predicate on its parts.
use reloader_operator.Base.{
  String, Bool, true, List, [], ◌∷◌, ◌++◌, Option, none, some, ◌≡◌, ◌↔◌, ◌⊎◌, arith, eq_iff, any,
  Some, ◌||◌,
}
use reloader_operator.Kube.{
  EnvVarSource, EnvVar, EnvFromSource, Container, VolumeProjection, Volume, PodSpec,
}
use reloader_operator.Util.Names.{kind_secret, kind_config_map}
use reloader_operator.Util.PodReferences.{
  points_to, names_resource, check_env_value_from_references_resource,
  check_env_from_references_resource, check_container_references_resource, check_projection,
  check_volume, check_volumes_reference_resource, check_pod_spec_references_resource,
}

any_iff :
    {A : Type 0} {P : A → Type 0} (p : A → Bool) (xs : List A)
    → ((x : A) → (p x ≡ true) ↔ P x)
    → (any p xs ≡ true) ↔ Some P xs
any_iff p [] h = (λ e. cc, λ e. absurd e)
any_iff p (x ∷ xs) h = ground (arith, h x, any_iff p xs h)

if_true_iff :
    {P Q : Type 0} (a b : Bool) → ((a ≡ true) ↔ P) → ((b ≡ true) ↔ Q) → ((a || b) ≡ true) ↔ (P ⊎ Q)
if_true_iff a b h k = ground arith

Some-append :
    {A : Type 0} (P : A → Type 0) (xs ys : List A) → Some P (xs ++ ys) ↔ (Some P xs ⊎ Some P ys)
Some-append P [] ys = ground arith
Some-append P (x ∷ xs) ys = ground (arith, Some-append P xs ys)

module _ (kind name : String) where
  -- A Secret is named by the first reference, a ConfigMap by the second.
  abbrev pub Names : Option String → Option String → Type 0
  Names secret_ref config_map_ref =
      ((kind ≡ kind_secret) × (secret_ref ≡ some name))
      ⊎ ((kind ≡ kind_config_map) × (config_map_ref ≡ some name))

  abbrev pub SourceNames : Option EnvVarSource → Type 0
  SourceNames none = ⊥
  SourceNames (some v) = Names v.secret_key_ref v.config_map_key_ref

  abbrev pub ContainerRefers : Container → Type 0
  ContainerRefers c =
      Some (λ (e : EnvVar). SourceNames e.value_from) c.env
      ⊎ Some (λ (e : EnvFromSource). Names e.secret_ref e.config_map_ref) c.env_from

  abbrev pub ProjectionNames : Option (List VolumeProjection) → Type 0
  ProjectionNames none = ⊥
  ProjectionNames (some sources) =
      Some (λ (s : VolumeProjection). Names s.secret s.config_map) sources

  abbrev pub VolumeRefers : Volume → Type 0
  VolumeRefers v = Names v.secret v.config_map ⊎ ProjectionNames v.projected

  -- A container, an init container or a volume refers to the resource.
  abbrev pub RefersTo : PodSpec → Type 0
  RefersTo spec =
      Some ContainerRefers spec.containers
      ⊎ Some ContainerRefers spec.init_containers
      ⊎ Some VolumeRefers spec.volumes

  points_to_iff : (ref : Option String) → (points_to ref name ≡ true) ↔ (ref ≡ some name)
  points_to_iff none = ground arith
  points_to_iff (some n) = ground (arith, eq_iff n name)

  names_resource_iff :
      (secret_ref config_map_ref : Option String)
      → (names_resource kind name secret_ref config_map_ref ≡ true)
        ↔ Names secret_ref config_map_ref
  names_resource_iff x y = ground (
    arith,
    points_to_iff x,
    points_to_iff y,
    eq_iff kind kind_secret,
    eq_iff kind kind_config_map,
  )

  source_iff :
      (v : Option EnvVarSource)
      → (check_env_value_from_references_resource kind name v ≡ true) ↔ SourceNames v
  unfolding check_env_value_from_references_resource
  source_iff none = (λ e. cc, λ e. absurd e)
  source_iff (some v) = names_resource_iff v.secret_key_ref v.config_map_key_ref

  env_from_iff :
      (e : EnvFromSource)
      → (check_env_from_references_resource kind name e ≡ true)
        ↔ Names e.secret_ref e.config_map_ref
  unfolding check_env_from_references_resource
  env_from_iff e = names_resource_iff e.secret_ref e.config_map_ref

  container_iff :
      (c : Container) → (check_container_references_resource kind name c ≡ true) ↔ ContainerRefers c
  unfolding check_container_references_resource
  container_iff c = ground (
    arith,
    any_iff {P = λ (e : EnvVar). SourceNames e.value_from}
        (λ (e : EnvVar). check_env_value_from_references_resource kind name e.value_from) c.env
        (λ (e : EnvVar). source_iff e.value_from),
    any_iff {P = λ (e : EnvFromSource). Names e.secret_ref e.config_map_ref}
        (check_env_from_references_resource kind name) c.env_from env_from_iff,
  )

  projection_iff :
      (o : Option (List VolumeProjection))
      → (check_projection kind name o ≡ true) ↔ ProjectionNames o
  unfolding check_projection
  projection_iff none = (λ e. cc, λ e. absurd e)
  projection_iff (some sources) =
      any_iff (λ (s : VolumeProjection). names_resource kind name s.secret s.config_map) sources
        (λ s. names_resource_iff s.secret s.config_map)

  volume_iff : (v : Volume) → (check_volume kind name v ≡ true) ↔ VolumeRefers v
  unfolding check_volume
  volume_iff v =
      ground (arith, names_resource_iff v.secret v.config_map, projection_iff v.projected)

  -- The check answers true exactly when a container, an init container or a volume of the pod spec
  -- refers to the resource, in the way that its kind asks for.
  pub check_pod_spec_iff :
      (spec : PodSpec) → (check_pod_spec_references_resource kind name spec ≡ true) ↔ RefersTo spec
  unfolding check_pod_spec_references_resource check_volumes_reference_resource
  check_pod_spec_iff spec = ground (
    arith,
    any_iff (check_container_references_resource kind name)
        (spec.containers ++ spec.init_containers) container_iff,
    Some-append ContainerRefers spec.containers spec.init_containers,
    any_iff (check_volume kind name) spec.volumes volume_iff,
  )
