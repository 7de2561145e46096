-- ===== src/Util/PodReferences.antt =====
-- internal/pkg/util/pod_references.go: does a pod spec refer to a Secret or a ConfigMap?
pub mod RefersTo
use reloader_operator.Base.{
  String, Bool, true, false, List, ◌++◌, Option, none, some, ◌==◌, ◌&&◌, any, if◌then◌else◌,
}
use reloader_operator.Kube.{
  EnvVarSource, EnvFromSource, Container, VolumeProjection, Volume, PodSpec,
}
use reloader_operator.Util.Names.{kind_secret, kind_config_map}

-- `ref != nil && ref.Name == name`
abbrev pub points_to : Option String → String → Bool
points_to none name = false
points_to (some n) name = n == name

module _ (resource_kind resource_name : String) where
  -- The two tests that each check makes, on the Secret and on the ConfigMap that an item names.
  abbrev pub names_resource : Option String → Option String → Bool
  names_resource secret_ref config_map_ref =
      if resource_kind == kind_secret && points_to secret_ref resource_name
      then true
      else if resource_kind == kind_config_map && points_to config_map_ref resource_name
      then true
      else false

  unfoldable pub check_env_value_from_references_resource : Option EnvVarSource → Bool
  check_env_value_from_references_resource none = false
  check_env_value_from_references_resource (some v) =
      names_resource v.secret_key_ref v.config_map_key_ref

  unfoldable pub check_env_from_references_resource : EnvFromSource → Bool
  check_env_from_references_resource e = names_resource e.secret_ref e.config_map_ref

  unfoldable pub check_container_references_resource : Container → Bool
  unfolding check_env_value_from_references_resource check_env_from_references_resource
  check_container_references_resource c =
      if any (λ e. check_env_value_from_references_resource e.value_from) c.env
      then true
      else any check_env_from_references_resource c.env_from

  -- The loop over the sources of a projected volume; a nil `Projected` has none.
  unfoldable pub check_projection : Option (List VolumeProjection) → Bool
  check_projection none = false
  check_projection (some sources) =
      any (λ (s : VolumeProjection). names_resource s.secret s.config_map) sources

  -- One round of the loop over the volumes.
  unfoldable pub check_volume : Volume → Bool
  unfolding check_projection
  check_volume v =
      if names_resource v.secret v.config_map then true else check_projection v.projected

  unfoldable pub check_volumes_reference_resource : List Volume → Bool
  unfolding check_volume
  check_volumes_reference_resource volumes = any check_volume volumes

  unfoldable pub check_pod_spec_references_resource : PodSpec → Bool
  unfolding check_container_references_resource check_volumes_reference_resource
  check_pod_spec_references_resource spec =
      if any check_container_references_resource (spec.containers ++ spec.init_containers)
      then true
      else check_volumes_reference_resource spec.volumes
