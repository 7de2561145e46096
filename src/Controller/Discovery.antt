-- ===== src/Controller/Discovery.antt =====
-- internal/controller/reconciler_discovery.go: the targets of a change.
pub mod Annotated
pub mod Found
pub mod Sources
pub mod Causes
pub mod Filtering
pub mod Merging
pub mod Quiet
use reloader_operator.Base.{
  String, Bool, true, false, Option, none, some, List, [], ◌∷◌, ◌++◌, ◌==◌, ◌&&◌, not, map,
  if◌then◌else◌, StringMap, lookup,
}
use reloader_operator.Kube.{Result, ok, err, ObjectKey, Secret, ConfigMap, PodSpec}
use reloader_operator.Api.{ReloaderConfig, ResourceReference, TargetWorkload}
use reloader_operator.Platform.{Platform, Selector, M, pure, read, ◌>>=◌, on_ok}
use reloader_operator.Util.Names.{kind_secret, kind_config_map}
use reloader_operator.Util.Strategies.{
  get_default_namespace, get_default_rollout_strategy, get_default_reload_strategy,
}
use reloader_operator.Util.PodReferences.{check_pod_spec_references_resource}
use reloader_operator.Util.Workloads.{get_workload, get_pod_spec}
use reloader_operator.Workload.Target.{Target}
use reloader_operator.Workload.Finder.{
  find_reloader_configs_watching_resource, find_workloads_with_annotations,
}
use reloader_operator.Controller.Reconciler.{Reconciler}

module _ (resource_kind resource_name resource_namespace : String) where
  -- One round of the loop over the ignore rules: does the rule match?
  unfoldable pub ignores : ResourceReference → Bool
  ignores ignored =
      if not (ignored.kind == resource_kind && ignored.name == resource_name)
      then false
      else if not (ignored.namespace == "") && not (ignored.namespace == resource_namespace)
      then false
      else true

  unfoldable pub any_ignores : List ResourceReference → Bool
  any_ignores [] = false
  any_ignores (ignored ∷ rules) = if ignores ignored then true else any_ignores rules

  unfoldable pub should_ignore_resource : ReloaderConfig → Bool
  should_ignore_resource config = any_ignores config.spec.ignore_resources

  -- The loop that drops the configs which ignore the resource.
  unfoldable pub without_ignoring : List ReloaderConfig → List ReloaderConfig
  without_ignoring [] = []
  without_ignoring (config ∷ configs) =
      let rest = without_ignoring configs in
      if should_ignore_resource config then rest else config ∷ rest

-- The target that a config states, with the strategies that hold where it states none.
unfoldable pub config_target : Reconciler → ReloaderConfig → TargetWorkload → Target
config_target r config target =
    let default_rollout_strategy =
      get_default_rollout_strategy config.spec.rollout_strategy r.rollout_strategy in
    let default_reload_strategy =
      get_default_reload_strategy config.spec.reload_strategy r.reload_strategy in
    record {
      kind = target.kind;
      name = target.name;
      namespace = get_default_namespace target.namespace config.namespace;
      rollout_strategy =
          get_default_rollout_strategy target.rollout_strategy default_rollout_strategy;
      reload_strategy = get_default_reload_strategy target.reload_strategy default_reload_strategy;
      pause_period = target.pause_period;
      require_reference = target.require_reference;
      config = some config;
    }

-- The loops over the configs and their targets.
unfoldable pub config_targets : Reconciler → List ReloaderConfig → List Target
config_targets r [] = []
config_targets r (config ∷ configs) =
    map (config_target r config) config.spec.targets ++ config_targets r configs

unfoldable pub merge_targets : Reconciler → List ReloaderConfig → List Target → List Target
merge_targets r configs annotated_workloads = config_targets r configs ++ annotated_workloads

-- The annotations of a resource that was fetched, and nil if it could not be.
abbrev secret_annotations : Result Secret → StringMap
secret_annotations (ok s) = s.annotations
secret_annotations (err e) = none

abbrev config_map_annotations : Result ConfigMap → StringMap
config_map_annotations (ok c) = c.annotations
config_map_annotations (err e) = none

-- `config.Spec.WatchedResources != nil && config.Spec.WatchedResources.EnableTargetedReload`
abbrev pub enables_targeted_reload : ReloaderConfig → Bool
enables_targeted_reload config = elim config.spec.watched_resources [
  | none ↦ false
  | some w ↦ w.enable_targeted_reload
]

abbrev pub checked_spec : String → String → Result PodSpec → Result Bool
checked_spec resource_kind resource_name (ok spec) =
    ok (check_pod_spec_references_resource resource_kind resource_name spec)
checked_spec resource_kind resource_name (err e) = err e

-- On an error the target is kept.
abbrev pub keeps : Result Bool → Bool
keeps (ok references) = references
keeps (err e) = true

module _ (p : Platform) where
  unfoldable pub resource_annotations_of : String → String → String → M p.World StringMap
  resource_annotations_of resource_kind resource_name resource_namespace =
      let key : ObjectKey = record { namespace = resource_namespace; name = resource_name } in
      if resource_kind == kind_secret
      then (do secret ← read (p.get_secret key); pure (secret_annotations secret))
      else if resource_kind == kind_config_map
      then (do cm ← read (p.get_config_map key); pure (config_map_annotations cm))
      else pure none

  unfoldable pub discover_targets :
      Reconciler → String → String → String → M p.World (Result (List Target × List ReloaderConfig))
  discover_targets r resource_kind resource_name resource_namespace = do
    found ← find_reloader_configs_watching_resource p resource_kind resource_name resource_namespace
    on_ok found λ configs. do
      let reloader_configs = without_ignoring resource_kind resource_name resource_namespace configs
      annotations ← resource_annotations_of resource_kind resource_name resource_namespace
      annotated ←
          find_workloads_with_annotations p resource_kind resource_name resource_namespace
            annotations
      on_ok annotated λ annotated_workloads.
          pure (ok (merge_targets r reloader_configs annotated_workloads, reloader_configs))

  module _ (resource_kind resource_name : String) where
    unfoldable pub workload_references_resource : Target → M p.World (Result Bool)
    workload_references_resource target = do
      fetched ← get_workload p target.kind target.name target.namespace
      on_ok fetched λ obj. pure (checked_spec resource_kind resource_name (get_pod_spec obj))

    -- One round of the loop, for a target with or without a config: does it stay?
    unfoldable pub is_kept_for : Target → Option ReloaderConfig → M p.World Bool
    is_kept_for target none = pure true
    is_kept_for target (some config) =
        if not (enables_targeted_reload config)
        then pure true
        else if not target.require_reference
        then pure true
        else (do references ← workload_references_resource target; pure (keeps references))

    unfoldable pub is_kept : Target → M p.World Bool
    unfolding is_kept_for
    is_kept target = is_kept_for target target.config

    unfoldable pub filter_targets_for_targeted_reload : List Target → M p.World (List Target)
    filter_targets_for_targeted_reload [] = pure []
    filter_targets_for_targeted_reload (target ∷ targets) = do
      kept ← is_kept target
      filtered ← filter_targets_for_targeted_reload targets
      pure (if kept then target ∷ filtered else filtered)

  -- `r.IgnoredNamespaces[namespace]`
  abbrev is_set : Option Bool → Bool
  is_set none = false
  is_set (some b) = b

  abbrev namespace_matches : Selector → Result StringMap → Bool
  namespace_matches selector (ok labels) = selector.matches labels
  namespace_matches selector (err e) = false

  unfoldable pub should_process_namespace : Reconciler → String → M p.World Bool
  should_process_namespace r namespace =
      if is_set (lookup namespace r.ignored_namespaces)
      then pure false
      else elim r.namespace_selector [
        | none ↦ pure true
        | some selector ↦ if selector.is_empty then pure true else (do
          labels ← read (p.get_namespace_labels namespace)
          pure (namespace_matches selector labels))
      ]
