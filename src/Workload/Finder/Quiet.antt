-- ===== src/Workload/Finder/Quiet.antt =====
-- The search for configs and workloads leaves no mark.
use reloader_operator.Base.{List, [], ◌∷◌, refl, String, arith, StringMap, ◌∙◌}
use reloader_operator.Api.{ReloaderConfig, TargetWorkload}
use reloader_operator.Platform.{Platform}
use reloader_operator.Platform.Quiet.{IsQuiet, on_ok-IsQuiet}
use reloader_operator.Util.Strategies.{get_default_namespace}
use reloader_operator.Workload.Finder.{
  workload_references_resource, any_target_references_resource, config_is_concerned,
  concerned_configs, find_reloader_configs_watching_resource, find_workloads_with_annotations,
}

module _ (p : Platform) (kind name : String) where
  workload_references_resource-IsQuiet :
      (workload_kind workload_name namespace : String)
      → IsQuiet (workload_references_resource p kind name workload_kind workload_name namespace)
  unfolding workload_references_resource
  workload_references_resource-IsQuiet k n ns s = ground arith

  any_target_references_resource-IsQuiet :
      (namespace config_namespace : String) (targets : List TargetWorkload)
      → IsQuiet (any_target_references_resource p kind name namespace config_namespace targets)
  unfolding any_target_references_resource
  any_target_references_resource-IsQuiet ns cns [] s = refl
  any_target_references_resource-IsQuiet ns cns (t ∷ ts) s =
      let ns' = get_default_namespace t.namespace cns in
      ground (
        arith,
        any_target_references_resource-IsQuiet ns cns ts s,
        any_target_references_resource-IsQuiet ns cns ts
            (workload_references_resource p kind name t.kind t.name ns' s).1,
        workload_references_resource-IsQuiet t.kind t.name ns' s,
      )

  config_is_concerned-IsQuiet :
      (namespace : String) (config : ReloaderConfig)
      → IsQuiet (config_is_concerned p kind name namespace config)
  unfolding config_is_concerned
  config_is_concerned-IsQuiet ns c s =
      ground (arith, any_target_references_resource-IsQuiet ns c.namespace c.spec.targets s)

  concerned_configs-IsQuiet :
      (namespace : String) (configs : List ReloaderConfig)
      → IsQuiet (concerned_configs p kind name namespace configs)
  unfolding concerned_configs
  concerned_configs-IsQuiet ns [] s = refl
  concerned_configs-IsQuiet ns (c ∷ cs) s =
      concerned_configs-IsQuiet ns cs _ ∙ config_is_concerned-IsQuiet ns c s

  pub find_reloader_configs_watching_resource-IsQuiet :
      (namespace : String) → IsQuiet (find_reloader_configs_watching_resource p kind name namespace)
  unfolding find_reloader_configs_watching_resource
  find_reloader_configs_watching_resource-IsQuiet ns s =
      on_ok-IsQuiet (p.list_configs ns s.world).0 _
        (λ configs. concerned_configs-IsQuiet ns configs) _

  pub find_workloads_with_annotations-IsQuiet :
      (namespace : String) (annotations : StringMap)
      → IsQuiet (find_workloads_with_annotations p kind name namespace annotations)
  unfolding find_workloads_with_annotations
  find_workloads_with_annotations-IsQuiet ns m s = ground arith
