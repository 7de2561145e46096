-- ===== src/Controller/Events.antt =====
-- internal/controller/reconciler_events.go: a Secret or a ConfigMap was updated, created or deleted.
-- `Failure` is the error of a handler; its `ctrl.Result` is always empty.
pub mod Reloading
pub mod Creations
pub mod Changes
use reloader_operator.Base.{
  ltb, String, Bool, none, List, [], ◌∷◌, ◌==◌, if◌then◌else◌, StringMap, index, assign,
}
use reloader_operator.Kube.{
  Failure, ObjectKey, Object, workload, secret, config_map, Secret, ConfigMap, get_annotations,
  set_annotations, get_name, get_namespace,
}
use reloader_operator.Api.{ReloaderConfig}
use reloader_operator.Platform.{Platform, M, pure, write, ◌>>=◌, ◌>>◌, or_fail, when, updated}
use reloader_operator.Util.Names.{
  annotation_ignore, annotation_last_hash, kind_secret, kind_config_map,
}
use reloader_operator.Util.Hash.{get_resource_data_and_hash}
use reloader_operator.Workload.Target.{Target}
use reloader_operator.Controller.Reconciler.{Reconciler}
use reloader_operator.Controller.Discovery.{discover_targets, filter_targets_for_targeted_reload}
use reloader_operator.Controller.StatusQueue.{
  update_reloader_config_statuses, remove_reloader_config_status_entries,
}
use reloader_operator.Controller.Reload.{execute_reloads, execute_delete_reloads}

unfoldable pub get_stored_hash : StringMap → String
get_stored_hash annotations = index annotation_last_hash annotations

-- The object with the new hash in its annotations.
abbrev pub with_hash : String → Object → Object
with_hash new_hash obj =
    set_annotations (assign annotation_last_hash new_hash (get_annotations obj)) obj

-- `annotations != nil && annotations[util.AnnotationIgnore] == "true"`
abbrev pub is_ignored : Object → Bool
is_ignored obj = index annotation_ignore (get_annotations obj) == "true"

module _ (p : Platform) where
  unfoldable pub update_resource_hash : Object → String → M p.World Failure
  update_resource_hash obj new_hash =
      write (updated (with_hash new_hash obj)) (p.update (with_hash new_hash obj))

  module _ (r : Reconciler) where
    -- The reloads of an update, and the status updates if one of them succeeded.
    unfoldable pub reload_changed :
        String → String → String → String → List Target × List ReloaderConfig → M p.World (Unit {0})
    reload_changed resource_kind resource_name resource_namespace current_hash
          (all_targets, reloader_configs) =
        do
          filtered ← filter_targets_for_targeted_reload p resource_kind resource_name all_targets
          success_count ←
              execute_reloads p r resource_kind resource_name filtered resource_namespace
                current_hash
          when (ltb 0 success_count) (
              update_reloader_config_statuses p reloader_configs resource_namespace resource_kind
                resource_name current_hash)

    unfoldable pub reconcile_resource_update : String → Object → M p.World Failure
    reconcile_resource_update resource_kind obj =
        if is_ignored obj
        then pure none
        else or_fail (get_resource_data_and_hash p.sha256 obj) λ current_hash.
          if current_hash == get_stored_hash (get_annotations obj) then pure none else (do
            discovered ← discover_targets p r resource_kind (get_name obj) (get_namespace obj)
            or_fail discovered λ found. do
              reload_changed resource_kind (get_name obj) (get_namespace obj) current_hash found
              update_resource_hash obj current_hash)

    unfoldable pub reconcile_secret : Secret → M p.World Failure
    reconcile_secret s = reconcile_resource_update kind_secret (secret s)

    unfoldable pub reconcile_config_map : ConfigMap → M p.World Failure
    reconcile_config_map c = reconcile_resource_update kind_config_map (config_map c)

    -- The status updates of a creation, and the reloads if the flag asks for them.
    unfoldable pub reload_created :
        String → String → String → String → List Target × List ReloaderConfig → M p.World (Unit {0})
    reload_created resource_kind resource_name resource_namespace current_hash
          (all_targets, reloader_configs) =
        do
          update_reloader_config_statuses p reloader_configs resource_namespace resource_kind
              resource_name current_hash
          when r.reload_on_create do
            filtered ← filter_targets_for_targeted_reload p resource_kind resource_name all_targets
            execute_reloads p r resource_kind resource_name filtered resource_namespace current_hash
            pure tt

    unfoldable pub reconcile_resource_created : String → Object → M p.World Failure
    reconcile_resource_created resource_kind obj =
        if is_ignored obj
        then pure none
        else or_fail (get_resource_data_and_hash p.sha256 obj) λ current_hash. do
          discovered ← discover_targets p r resource_kind (get_name obj) (get_namespace obj)
          or_fail discovered λ found. do
            reload_created resource_kind (get_name obj) (get_namespace obj) current_hash found
            update_resource_hash obj current_hash

    unfoldable pub reconcile_secret_created : Secret → M p.World Failure
    reconcile_secret_created s = reconcile_resource_created kind_secret (secret s)

    unfoldable pub reconcile_config_map_created : ConfigMap → M p.World Failure
    reconcile_config_map_created c = reconcile_resource_created kind_config_map (config_map c)

    unfoldable pub reload_deleted :
        String → ObjectKey → List Target × List ReloaderConfig → M p.World (Unit {0})
    reload_deleted resource_kind key (all_targets, reloader_configs) = do
      filtered ← filter_targets_for_targeted_reload p resource_kind key.name all_targets
      success_count ← execute_delete_reloads p r resource_kind key.name filtered
      when (ltb 0 success_count) (
          remove_reloader_config_status_entries p reloader_configs key.namespace resource_kind
            key.name)

    unfoldable pub reconcile_resource_deleted : String → ObjectKey → M p.World Failure
    reconcile_resource_deleted resource_kind key = do
      discovered ← discover_targets p r resource_kind key.name key.namespace
      or_fail discovered λ found. do reload_deleted resource_kind key found; pure none

    unfoldable pub reconcile_secret_deleted : ObjectKey → M p.World Failure
    reconcile_secret_deleted key = reconcile_resource_deleted kind_secret key

    unfoldable pub reconcile_config_map_deleted : ObjectKey → M p.World Failure
    reconcile_config_map_deleted key = reconcile_resource_deleted kind_config_map key

abbrev key_of : Object → ObjectKey
key_of obj = record { namespace = get_namespace obj; name = get_name obj }

unfoldable pub map_secret_to_requests : Object → List ObjectKey
map_secret_to_requests (secret s) = key_of (secret s) ∷ []
map_secret_to_requests (config_map c) = []
map_secret_to_requests (workload t w) = []

unfoldable pub map_config_map_to_requests : Object → List ObjectKey
map_config_map_to_requests (config_map c) = key_of (config_map c) ∷ []
map_config_map_to_requests (secret s) = []
map_config_map_to_requests (workload t w) = []
