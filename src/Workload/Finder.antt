-- ===== src/Workload/Finder.antt =====
-- internal/pkg/workload/finder.go: the ReloaderConfigs and the workloads that a resource concerns.
pub mod Quiet
use reloader_operator.Base.{
  String, Bool, true, false, none, some, List, [], ◌∷◌, ◌++◌, ◌==◌, if◌then◌else◌, StringMap, index,
}
use reloader_operator.Kube.{
  Result, ok, err, ObjectKey, workload, Workload, WorkloadType, deployment, stateful_set,
  daemon_set,
}
use reloader_operator.Api.{ReloaderConfig, WatchedResources, TargetWorkload}
use reloader_operator.Platform.{Platform, M, pure, read, ◌>>=◌, on_ok}
use reloader_operator.Util.Names.{
  annotation_ignore, annotation_rollout_strategy, annotation_deployment_pause_period,
  annotation_stateful_set_pause_period, annotation_daemon_set_pause_period, kind_secret,
  kind_config_map, kind_deployment, kind_stateful_set, kind_daemon_set, rollout_strategy_rollout,
  reload_strategy_env_vars, contains_string,
}
use reloader_operator.Util.Strategies.{
  get_default_namespace, get_default_rollout_strategy, get_default_reload_strategy,
}
use reloader_operator.Util.PodReferences.{check_pod_spec_references_resource}
use reloader_operator.Workload.Target.{Target}
use reloader_operator.Workload.Annotations.{should_reload_from_annotations}

-- The names to watch; the nil list for another kind.
unfoldable pub watch_list : WatchedResources → String → List String
watch_list w kind =
    if kind == kind_secret then w.secrets else if kind == kind_config_map then w.config_maps else []

unfoldable pub config_watches_resource : ReloaderConfig → String → String → Bool
config_watches_resource config kind name = elim config.spec.watched_resources [
  | none ↦ false
  | some w ↦ contains_string (watch_list w kind) name
]

-- A workload that was fetched refers to the resource; one that could not be fetched does not.
abbrev pub found_references : String → String → Result Workload → Bool
found_references resource_kind resource_name (ok w) =
    check_pod_spec_references_resource resource_kind resource_name w.template.spec
found_references resource_kind resource_name (err e) = false

module _ (p : Platform) (resource_kind resource_name : String) where
  abbrev pub get_references : WorkloadType → ObjectKey → M p.World Bool
  get_references t key = do
    w ← read (p.get_workload t key)
    pure (found_references resource_kind resource_name w)

  unfoldable pub workload_references_resource : String → String → String → M p.World Bool
  workload_references_resource workload_kind workload_name workload_namespace =
      let key : ObjectKey = record { namespace = workload_namespace; name = workload_name } in
      if workload_kind == kind_deployment
      then get_references deployment key
      else if workload_kind == kind_stateful_set
      then get_references stateful_set key
      else if workload_kind == kind_daemon_set
      then get_references daemon_set key
      else pure false

  -- The loop over the targets of a config in namespace `config_namespace`.
  unfoldable pub any_target_references_resource :
      String → String → List TargetWorkload → M p.World Bool
  any_target_references_resource resource_namespace config_namespace [] = pure false
  any_target_references_resource resource_namespace config_namespace (target ∷ targets) =
      let rest = any_target_references_resource resource_namespace config_namespace targets in
      let target_ns = get_default_namespace target.namespace config_namespace in
      let check = workload_references_resource target.kind target.name target_ns in
      if target_ns == resource_namespace
      then (do found ← check; if found then pure true else rest)
      else rest

  -- One round of the loop over the configs: is this one in the result?
  unfoldable pub config_is_concerned : String → ReloaderConfig → M p.World Bool
  config_is_concerned resource_namespace config =
      if index annotation_ignore config.annotations == "true"
      then pure false
      else if config_watches_resource config resource_kind resource_name
      then pure true
      else if config.spec.auto_reload_all
      then any_target_references_resource resource_namespace config.namespace config.spec.targets
      else pure false

  unfoldable pub concerned_configs : String → List ReloaderConfig → M p.World (List ReloaderConfig)
  concerned_configs resource_namespace [] = pure []
  concerned_configs resource_namespace (config ∷ configs) = do
    concerned ← config_is_concerned resource_namespace config
    result ← concerned_configs resource_namespace configs
    pure (if concerned then config ∷ result else result)

  unfoldable pub find_reloader_configs_watching_resource :
      String → M p.World (Result (List ReloaderConfig))
  find_reloader_configs_watching_resource resource_namespace = do
    listed ← read (p.list_configs resource_namespace)
    on_ok listed
        λ configs. do result ← concerned_configs resource_namespace configs; pure (ok result)

-- The target for an annotated workload of a kind.
unfoldable pub annotated_target : String → String → Workload → Target
annotated_target kind pause_annotation w = record {
  kind = kind;
  name = w.name;
  namespace = w.namespace;
  rollout_strategy =
      get_default_rollout_strategy (index annotation_rollout_strategy w.annotations)
        rollout_strategy_rollout;
  reload_strategy = get_default_reload_strategy "" reload_strategy_env_vars;
  pause_period = index pause_annotation w.annotations;
  require_reference = false;
  config = none;
}

module _ (resource_kind resource_name : String) (resource_annotations : StringMap) where
  -- The loop over the workloads of one type.
  unfoldable pub annotated_targets : WorkloadType → String → String → List Workload → List Target
  annotated_targets t kind pause_annotation [] = []
  annotated_targets t kind pause_annotation (w ∷ ws) =
      let rest = annotated_targets t kind pause_annotation ws in
      if should_reload_from_annotations resource_kind resource_name (workload t w)
        resource_annotations
      then annotated_target kind pause_annotation w ∷ rest
      else rest

  abbrev pub deployment_targets : List Workload → List Target
  deployment_targets =
      annotated_targets deployment kind_deployment annotation_deployment_pause_period

  abbrev pub stateful_set_targets : List Workload → List Target
  stateful_set_targets =
      annotated_targets stateful_set kind_stateful_set annotation_stateful_set_pause_period

  abbrev pub daemon_set_targets : List Workload → List Target
  daemon_set_targets =
      annotated_targets daemon_set kind_daemon_set annotation_daemon_set_pause_period

module _ (p : Platform) (resource_kind resource_name : String) where
  unfoldable pub find_workloads_with_annotations :
      String → StringMap → M p.World (Result (List Target))
  find_workloads_with_annotations resource_namespace resource_annotations = do
    deployments ← read (p.list_workloads deployment resource_namespace)
    on_ok deployments λ ds. do
      stateful_sets ← read (p.list_workloads stateful_set resource_namespace)
      on_ok stateful_sets λ ss. do
        daemon_sets ← read (p.list_workloads daemon_set resource_namespace)
        on_ok daemon_sets λ es. pure (
            ok (
              deployment_targets resource_kind resource_name resource_annotations ds
              ++ (stateful_set_targets resource_kind resource_name resource_annotations ss
                  ++ daemon_set_targets resource_kind resource_name resource_annotations es)))
