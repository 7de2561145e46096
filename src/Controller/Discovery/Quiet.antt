-- ===== src/Controller/Discovery/Quiet.antt =====
-- The discovery of targets, and the filter for targeted reloads, leave no mark.
use reloader_operator.Base.{List, [], ◌∷◌, refl, String, arith, ◌∙◌}
use reloader_operator.Platform.{Platform}
use reloader_operator.Platform.Quiet.{IsQuiet}
use reloader_operator.Util.Workloads.Quiet.{get_workload-IsQuiet}
use reloader_operator.Workload.Target.{Target}
use reloader_operator.Workload.Finder.{find_reloader_configs_watching_resource}
use reloader_operator.Workload.Finder.Quiet.{
  find_reloader_configs_watching_resource-IsQuiet, find_workloads_with_annotations-IsQuiet,
}
use reloader_operator.Controller.Reconciler.{Reconciler}
use reloader_operator.Controller.Discovery.{
  resource_annotations_of, discover_targets, workload_references_resource, is_kept,
  filter_targets_for_targeted_reload,
}

module _ (p : Platform) (kind name : String) where
  resource_annotations_of-IsQuiet :
      (namespace : String) → IsQuiet (resource_annotations_of p kind name namespace)
  unfolding resource_annotations_of
  resource_annotations_of-IsQuiet ns s = ground arith

  pub discover_targets-IsQuiet :
      (r : Reconciler) (namespace : String) → IsQuiet (discover_targets p r kind name namespace)
  unfolding discover_targets
  discover_targets-IsQuiet r ns s =
      let s₁ = (find_reloader_configs_watching_resource p kind name ns s).1 in
      let (m, s₂) = resource_annotations_of p kind name ns s₁ in
      ground (
        arith,
        find_reloader_configs_watching_resource-IsQuiet p kind name ns s,
        resource_annotations_of-IsQuiet ns s₁,
        find_workloads_with_annotations-IsQuiet p kind name ns m s₂,
      )

  workload_references_resource-IsQuiet :
      (target : Target) → IsQuiet (workload_references_resource p kind name target)
  unfolding workload_references_resource
  workload_references_resource-IsQuiet target s =
      ground (arith, get_workload-IsQuiet p target.kind target.name target.namespace s)

  pub is_kept-IsQuiet : (target : Target) → IsQuiet (is_kept p kind name target)
  unfolding is_kept
  is_kept-IsQuiet target s = ground (arith, workload_references_resource-IsQuiet target s)

  pub filter_targets-IsQuiet :
      (targets : List Target) → IsQuiet (filter_targets_for_targeted_reload p kind name targets)
  unfolding filter_targets_for_targeted_reload
  filter_targets-IsQuiet [] s = refl
  filter_targets-IsQuiet (t ∷ ts) s = filter_targets-IsQuiet ts _ ∙ is_kept-IsQuiet t s
