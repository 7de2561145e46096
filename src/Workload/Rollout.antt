-- ===== src/Workload/Rollout.antt =====
-- internal/pkg/workload/updater.go: a rollout of a workload, by a change of its pod template.
use reloader_operator.Base.{String, none, some, List, [], ◌∷◌}
use reloader_operator.Kube.{
  Result, ok, err, wrap, Failure, Object, workload, secret, config_map, PodTemplateSpec,
}
use reloader_operator.Platform.{Platform, M, pure, read, write, ◌>>=◌, or_fail, updated}
use reloader_operator.Util.Names.{kind_deployment, kind_stateful_set, kind_daemon_set}
use reloader_operator.Util.Workloads.{get_workload, get_pod_template}
use reloader_operator.Workload.Template.{apply_reload_strategy, apply_delete_strategy}

-- The pod template is changed in place, inside the object.
abbrev pub set_pod_template : PodTemplateSpec → Object → Object
set_pod_template template (workload t w) = workload t (record w { template = template })
set_pod_template template (secret s) = secret s
set_pod_template template (config_map c) = config_map c

-- `err.Error()` in a wrapper, nil for nil
abbrev pub wrap_failure : List String → Failure → Failure
wrap_failure context none = none
wrap_failure context (some e) = some (wrap context e)

abbrev pub wrap_result : {A : Type 0} → List String → Result A → Result A
wrap_result context (ok a) = ok a
wrap_result context (err e) = err (wrap context e)

module _ (p : Platform) where
  -- The end of both generic reloads: the pod template of the object that was fetched is changed, at the
  -- instant that the strategy reads from the clock, and the object is updated.
  unfoldable pub change_template :
      String → (String → PodTemplateSpec → Result PodTemplateSpec) → Object → M p.World Failure
  change_template kind change obj = or_fail (get_pod_template obj) λ pod_template. do
    now ← read p.now
    or_fail (change (p.format_time now) pod_template) λ changed. do
      let obj' = set_pod_template changed obj
      failure ← write (updated obj') (p.update obj')
      pure (wrap_failure ("failed to update " ∷ kind ∷ []) failure)

  unfoldable pub reload_workload_generic :
      String → String → String → String → String → String → String → String → M p.World Failure
  reload_workload_generic kind name namespace strategy reload_source resource_kind resource_name
        resource_hash =
      do
        fetched ← get_workload p kind name namespace
        or_fail (wrap_result ("failed to get " ∷ kind ∷ []) fetched) (
            change_template kind (λ timestamp.
              apply_reload_strategy resource_kind resource_name timestamp strategy reload_source
                resource_hash))

  -- The reloads by kind.
  abbrev pub reload_deployment :
      String → String → String → String → String → String → String → M p.World Failure
  reload_deployment name namespace strategy reload_source resource_kind resource_name
        resource_hash =
      reload_workload_generic kind_deployment name namespace strategy reload_source resource_kind
        resource_name resource_hash

  abbrev pub reload_stateful_set :
      String → String → String → String → String → String → String → M p.World Failure
  reload_stateful_set name namespace strategy reload_source resource_kind resource_name
        resource_hash =
      reload_workload_generic kind_stateful_set name namespace strategy reload_source resource_kind
        resource_name resource_hash

  abbrev pub reload_daemon_set :
      String → String → String → String → String → String → String → M p.World Failure
  reload_daemon_set name namespace strategy reload_source resource_kind resource_name
        resource_hash =
      reload_workload_generic kind_daemon_set name namespace strategy reload_source resource_kind
        resource_name resource_hash

  unfoldable pub reload_delete_workload_generic :
      String → String → String → String → String → String → M p.World Failure
  reload_delete_workload_generic kind name namespace strategy resource_kind resource_name = do
    fetched ← get_workload p kind name namespace
    or_fail (wrap_result ("failed to get " ∷ kind ∷ []) fetched) (
        change_template kind
          (λ timestamp. apply_delete_strategy resource_kind resource_name timestamp strategy))

  abbrev pub reload_delete_deployment :
      String → String → String → String → String → M p.World Failure
  reload_delete_deployment name namespace strategy resource_kind resource_name =
      reload_delete_workload_generic kind_deployment name namespace strategy resource_kind
        resource_name

  abbrev pub reload_delete_stateful_set :
      String → String → String → String → String → M p.World Failure
  reload_delete_stateful_set name namespace strategy resource_kind resource_name =
      reload_delete_workload_generic kind_stateful_set name namespace strategy resource_kind
        resource_name

  abbrev pub reload_delete_daemon_set :
      String → String → String → String → String → M p.World Failure
  reload_delete_daemon_set name namespace strategy resource_kind resource_name =
      reload_delete_workload_generic kind_daemon_set name namespace strategy resource_kind
        resource_name
