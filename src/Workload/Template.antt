-- ===== src/Workload/Template.antt =====
-- internal/pkg/workload/updater.go: the changes that a reload makes to a pod template. `timestamp` is
-- the formatted instant of the call.
pub mod Collisions
pub mod Effects
use reloader_operator.Base.{
  String, none, List, [], ◌∷◌, ◌==◌, if◌then◌else◌, concat, assign, delete,
}
use reloader_operator.Kube.{Result, ok, err, errorf, EnvVar, Container, PodTemplateSpec}
use reloader_operator.Util.Names.{
  annotation_last_reload, annotation_last_reloaded_from, reload_strategy_env_vars,
  reload_strategy_annotations,
}
use reloader_operator.Util.EnvNames.{get_env_var_name}

-- The loop over the variables with its `break`, and the append if nothing was found.
unfoldable pub set_env : String → String → List EnvVar → List EnvVar
set_env name value [] = record { name = name; value = value; value_from = none } ∷ []
set_env name value (e ∷ env) =
    if e.name == name then record e { value = value } ∷ env else e ∷ set_env name value env

-- The change to the first container.
unfoldable pub set_first_env :
    String → String → List Container → PodTemplateSpec → Result PodTemplateSpec
unfolding set_env
set_first_env name value [] template = err (errorf ("no containers found in pod template" ∷ []))
set_first_env name value (c ∷ containers) template = ok (record template {
  spec = record (template.spec) {
    containers = record c { env = set_env name value c.env } ∷ containers;
  };
})

module _ (resource_kind resource_name : String) where
  unfoldable pub apply_env_vars_strategy : String → PodTemplateSpec → Result PodTemplateSpec
  unfolding set_first_env
  apply_env_vars_strategy resource_hash template =
      set_first_env (get_env_var_name resource_kind resource_name) resource_hash
        template.spec.containers template

  -- The annotation is deleted only behind the check for containers.
  abbrev without_source : Result PodTemplateSpec → Result PodTemplateSpec
  without_source (ok t) =
      ok (record t { annotations = delete annotation_last_reloaded_from t.annotations })
  without_source (err e) = err e

  unfoldable pub apply_delete_env_vars_strategy : String → PodTemplateSpec → Result PodTemplateSpec
  unfolding set_first_env
  apply_delete_env_vars_strategy timestamp template = without_source (
      set_first_env (get_env_var_name resource_kind resource_name)
        (concat ("deleted-" ∷ timestamp ∷ [])) template.spec.containers template)

unfoldable pub apply_annotations_strategy : String → String → PodTemplateSpec → PodTemplateSpec
apply_annotations_strategy timestamp reload_source template = record template {
  annotations =
      assign annotation_last_reloaded_from reload_source
        (assign annotation_last_reload timestamp template.annotations);
}

unfoldable pub apply_delete_annotations_strategy : String → PodTemplateSpec → PodTemplateSpec
apply_delete_annotations_strategy timestamp template = record template {
  annotations =
      delete annotation_last_reloaded_from
        (assign annotation_last_reload timestamp template.annotations);
}

module _ (resource_kind resource_name : String) where
  unfoldable pub apply_reload_strategy :
      String → String → String → String → PodTemplateSpec → Result PodTemplateSpec
  unfolding apply_env_vars_strategy apply_annotations_strategy
  apply_reload_strategy timestamp strategy reload_source resource_hash template =
      if strategy == reload_strategy_env_vars
      then apply_env_vars_strategy resource_kind resource_name resource_hash template
      else if strategy == reload_strategy_annotations
      then ok (apply_annotations_strategy timestamp reload_source template)
      else err (errorf ("unknown reload strategy: " ∷ strategy ∷ []))

  unfoldable pub apply_delete_strategy : String → String → PodTemplateSpec → Result PodTemplateSpec
  unfolding apply_delete_env_vars_strategy apply_delete_annotations_strategy
  apply_delete_strategy timestamp strategy template =
      if strategy == reload_strategy_env_vars
      then apply_delete_env_vars_strategy resource_kind resource_name timestamp template
      else if strategy == reload_strategy_annotations
      then ok (apply_delete_annotations_strategy timestamp template)
      else err (errorf ("unknown reload strategy: " ∷ strategy ∷ []))
