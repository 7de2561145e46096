-- ===== src/Workload/Annotations.antt =====
-- internal/pkg/workload/finder.go: does a workload reload by its annotations?
pub mod Rules
use reloader_operator.Base.{
  String, Bool, true, false, Option, none, some, ◌==◌, ◌&&◌, if◌then◌else◌, StringMap, index,
}
use reloader_operator.Kube.{Object, workload, secret, config_map, get_annotations, PodSpec}
use reloader_operator.Util.Names.{
  annotation_ignore, annotation_auto, annotation_secret_auto, annotation_config_map_auto,
  annotation_secret_reload, annotation_config_map_reload, annotation_search, annotation_match,
  kind_secret, kind_config_map, contains_string,
}
use reloader_operator.Util.CommaLists.{parse_comma_separated_list}
use reloader_operator.Util.PodReferences.{check_pod_spec_references_resource}

-- The type switch: nil for what is no workload.
abbrev pub pod_spec_of : Object → Option PodSpec
pod_spec_of (workload t w) = some w.template.spec
pod_spec_of (secret s) = none
pod_spec_of (config_map c) = none

-- `podSpec != nil && workloadReferencesResource(podSpec, resourceKind, resourceName)`
unfoldable pub references : Option PodSpec → String → String → Bool
references none resource_kind resource_name = false
references (some spec) resource_kind resource_name =
    check_pod_spec_references_resource resource_kind resource_name spec

module _ (resource_kind resource_name : String) where
  -- The list of names for the kind of the resource.
  unfoldable pub reload_list : StringMap → String
  reload_list annotations =
      if resource_kind == kind_secret
      then index annotation_secret_reload annotations
      else if resource_kind == kind_config_map
      then index annotation_config_map_reload annotations
      else ""

  -- Rules 3 and 4; `referenced` is the answer for the pod spec.
  unfoldable pub reload_by_name_or_match : StringMap → StringMap → Bool → Bool
  unfolding reload_list
  reload_by_name_or_match annotations resource_annotations referenced =
      if reload_list annotations == ""
      then (if index annotation_search annotations == "true"
          then index annotation_match resource_annotations == "true" && referenced
          else false)
      else contains_string (parse_comma_separated_list (reload_list annotations)) resource_name

  -- Rule 2 and what follows it.
  unfoldable pub reload_by_type : StringMap → StringMap → Bool → Bool
  unfolding reload_by_name_or_match
  reload_by_type annotations resource_annotations referenced =
      if resource_kind == kind_secret
        && index annotation_secret_auto annotations == "true"
        && referenced
      then true
      else if resource_kind == kind_config_map
          && index annotation_config_map_auto annotations == "true"
          && referenced
      then true
      else reload_by_name_or_match annotations resource_annotations referenced

  -- All the rules, on the annotations of a workload.
  unfoldable pub reload_by_rules : StringMap → StringMap → Bool → Bool
  unfolding reload_by_type
  reload_by_rules annotations resource_annotations referenced =
      if index annotation_ignore annotations == "true"
      then false
      else if index annotation_auto annotations == "true" && referenced
      then true
      else if index annotation_auto annotations == "false"
      then false
      else reload_by_type annotations resource_annotations referenced

  -- The early return at nil annotations stands first.
  unfoldable pub should_reload_from_annotations : Object → StringMap → Bool
  unfolding reload_by_rules references
  should_reload_from_annotations obj resource_annotations = elim (get_annotations obj) [
    | none ↦ false
    | some annotations ↦
        reload_by_rules (some annotations) resource_annotations
          (references (pod_spec_of obj) resource_kind resource_name)
  ]
