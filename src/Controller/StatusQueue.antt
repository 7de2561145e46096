-- ===== src/Controller/StatusQueue.antt =====
-- internal/controller/reconciler_status.go: the items that the controller puts into the status queue.
use reloader_operator.Base.{String, none, some, List, [], ◌∷◌, lookup}
use reloader_operator.Kube.{ObjectKey}
use reloader_operator.Api.{ReloaderConfig}
use reloader_operator.Platform.{Platform, M, pure, signal, ◌>>◌, enqueued}
use reloader_operator.Util.Keys.{make_resource_key}
use reloader_operator.Workload.Target.{Target}
use reloader_operator.Controller.WorkItem.{
  StatusUpdateWorkItem, status_update_type_reloader_config, status_update_type_target,
}

abbrev pub config_key_of : ReloaderConfig → ObjectKey
config_key_of config = record { namespace = config.namespace; name = config.name }

module _ (resource_namespace resource_kind resource_name : String) where
  abbrev pub config_item : String → ReloaderConfig → StatusUpdateWorkItem
  config_item new_hash config = record {
    update_type = status_update_type_reloader_config;
    config_key = config_key_of config;
    resource_namespace = resource_namespace;
    resource_kind = resource_kind;
    resource_name = resource_name;
    new_hash = new_hash;
    target = none;
    error_msg = "";
  }

abbrev pub target_item : ReloaderConfig → Target → String → StatusUpdateWorkItem
target_item config target error_msg = record {
  update_type = status_update_type_target;
  config_key = config_key_of config;
  resource_namespace = "";
  resource_kind = "";
  resource_name = "";
  new_hash = "";
  target = some target;
  error_msg = error_msg;
}

module _ (p : Platform) where
  abbrev pub enqueue : StatusUpdateWorkItem → M p.World (Unit {0})
  enqueue item = signal (enqueued item) (p.queue_add item)

  -- The key is built by `fmt.Sprintf("%s/%s/%s", …)`, as `make_resource_key` does.
  unfoldable pub remove_reloader_config_status_entries :
      List ReloaderConfig → String → String → String → M p.World (Unit {0})
  remove_reloader_config_status_entries [] resource_namespace resource_kind resource_name = pure tt
  remove_reloader_config_status_entries (config ∷ configs) resource_namespace resource_kind
        resource_name =
      let rest =
        remove_reloader_config_status_entries configs resource_namespace resource_kind
          resource_name in
      elim (lookup (make_resource_key resource_namespace resource_kind resource_name)
        config.status.watched_resource_hashes) [
          | none ↦ rest
          | some hash ↦ do
            enqueue (config_item resource_namespace resource_kind resource_name "" config)
            rest
        ]

  unfoldable pub update_reloader_config_statuses :
      List ReloaderConfig → String → String → String → String → M p.World (Unit {0})
  update_reloader_config_statuses [] resource_namespace resource_kind resource_name new_hash =
      pure tt
  update_reloader_config_statuses (config ∷ configs) resource_namespace resource_kind resource_name
        new_hash =
      do
        enqueue (config_item resource_namespace resource_kind resource_name new_hash config)
        update_reloader_config_statuses configs resource_namespace resource_kind resource_name
            new_hash

  unfoldable pub update_target_status : ReloaderConfig → Target → String → M p.World (Unit {0})
  update_target_status config target error_msg = enqueue (target_item config target error_msg)
