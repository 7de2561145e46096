-- ===== src/Controller/Reconcile.antt =====
-- internal/controller/reloaderconfig_controller.go: the entry point.
pub mod Settled
pub mod Dispatch
use reloader_operator.Base.{
  Bool, true, false, none, some, List, [], ◌∷◌, ◌==◌, ◌&&◌, if◌then◌else◌, index,
}
use reloader_operator.Kube.{Result, ok, err, Failure, ObjectKey, Secret, ConfigMap}
use reloader_operator.Api.{ReloaderConfig}
use reloader_operator.Platform.{Platform, M, pure, read, ◌>>=◌}
use reloader_operator.Util.Names.{annotation_last_hash, kind_secret, kind_config_map}
use reloader_operator.Workload.Target.{Target}
use reloader_operator.Controller.Reconciler.{Reconciler}
use reloader_operator.Controller.Discovery.{discover_targets}
use reloader_operator.Controller.Events.{
  reconcile_secret, reconcile_secret_created, reconcile_secret_deleted, reconcile_config_map,
  reconcile_config_map_created, reconcile_config_map_deleted,
}
use reloader_operator.Controller.ConfigReconcile.{reconcile_reloader_config}

-- `len(targets) > 0 || len(configs) > 0`; after an error, which is dropped, both lists are nil.
abbrev pub anything_found : Result (List Target × List ReloaderConfig) → Bool
anything_found (ok ([], [])) = false
anything_found (ok ([], c ∷ cs)) = true
anything_found (ok (t ∷ ts, configs)) = true
anything_found (err e) = false

module _ (p : Platform) (r : Reconciler) where
  -- Nothing is found for a ConfigMap with the name either: nothing to do.
  unfoldable pub reconcile_deleted_as_config_map : ObjectKey → M p.World Failure
  reconcile_deleted_as_config_map key = do
    config_maps ← discover_targets p r kind_config_map key.name key.namespace
    elim (anything_found config_maps) [
      | true ↦ reconcile_config_map_deleted p r key
      | false ↦ pure none
    ]

  unfoldable pub reconcile_deleted_as_secret : ObjectKey → M p.World Failure
  reconcile_deleted_as_secret key = do
    secrets ← discover_targets p r kind_secret key.name key.namespace
    elim (anything_found secrets) [
      | true ↦ reconcile_secret_deleted p r key
      | false ↦ reconcile_deleted_as_config_map key
    ]

  unfoldable pub reconcile_deleted : ObjectKey → M p.World Failure
  reconcile_deleted key = if r.reload_on_delete then reconcile_deleted_as_secret key else pure none

  unfoldable pub reconcile_found_secret : Secret → M p.World Failure
  reconcile_found_secret s =
      if index annotation_last_hash s.annotations == "" && r.reload_on_create
      then reconcile_secret_created p r s
      else reconcile_secret p r s

  unfoldable pub reconcile_found_config_map : ConfigMap → M p.World Failure
  reconcile_found_config_map c =
      if index annotation_last_hash c.annotations == "" && r.reload_on_create
      then reconcile_config_map_created p r c
      else reconcile_config_map p r c

  unfoldable pub reconcile_as_config_map : ObjectKey → M p.World Failure
  reconcile_as_config_map key = do
    fetched ← read (p.get_config_map key)
    elim fetched [
      | ok c ↦ reconcile_found_config_map c
      | err e ↦ if e.is_not_found then reconcile_deleted key else pure (some e)
    ]

  unfoldable pub reconcile_as_secret : ObjectKey → M p.World Failure
  reconcile_as_secret key = do
    fetched ← read (p.get_secret key)
    elim fetched [
      | ok s ↦ reconcile_found_secret s
      | err e ↦ if e.is_not_found then reconcile_as_config_map key else pure (some e)
    ]

  unfoldable pub reconcile : ObjectKey → M p.World Failure
  reconcile key = do
    fetched ← read (p.get_config key)
    elim fetched [
      | ok config ↦ reconcile_reloader_config p config
      | err e ↦ if e.is_not_found then reconcile_as_secret key else pure (some e)
    ]
