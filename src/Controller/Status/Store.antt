-- ===== src/Controller/Status/Store.antt =====
-- What the status worker relies on of the server and the queue, to have its writes stored.
use reloader_operator.Base.{Bool, true, none, some, Option, ◌==◌, ◌&&◌, ◌≡◌, ◌≢◌}
use reloader_operator.Kube.{GoError, ObjectKey, ok, err}
use reloader_operator.Api.{ReloaderConfig}
use reloader_operator.Platform.{Platform}
use reloader_operator.Controller.StatusQueue.{config_key_of}
use reloader_operator.Controller.Status.Stored.{kept_config}
use reloader_operator.Controller.WorkItem.{StatusUpdateWorkItem}

-- A server that holds configs by their keys, answers with what it holds, and accepts each write, of which it
-- keeps the instants in whole seconds. Nobody else writes to it.
pub record ConfigStore (p : Platform) : Type 0 where
  pub stored : p.World → ObjectKey → Option ReloaderConfig
  pub key_of :
      (w : p.World) (key : ObjectKey) (config : ReloaderConfig)
      → stored w key ≡ some config
      → config_key_of config ≡ key
  pub get_found :
      (w : p.World) (key : ObjectKey) (config : ReloaderConfig)
      → stored w key ≡ some config
      → (p.get_config key w).0 ≡ ok config
  pub get_missing :
      (w : p.World) (key : ObjectKey)
      → stored w key ≡ none
      → (e : GoError) × (e.is_not_found ≡ true) × ((p.get_config key w).0 ≡ err e)
  pub update_accepted :
      (config : ReloaderConfig) (w : p.World) → (p.update_status config w).0 ≡ none
  pub update_stored :
      (config : ReloaderConfig) (w : p.World)
      → stored (p.update_status config w).1 (config_key_of config) ≡ some (kept_config config)
  pub update_others :
      (config : ReloaderConfig) (w : p.World) (key : ObjectKey)
      → key ≢ config_key_of config
      → stored (p.update_status config w).1 key ≡ stored w key
  -- The other calls change no config.
  pub get_keeps : (key k : ObjectKey) (w : p.World) → stored (p.get_config key w).1 k ≡ stored w k
  pub now_keeps : (k : ObjectKey) (w : p.World) → stored (p.now w).1 k ≡ stored w k
  pub queue_get_keeps : (k : ObjectKey) (w : p.World) → stored (p.queue_get w).1 k ≡ stored w k
  pub forget_keeps :
      (item : StatusUpdateWorkItem) (k : ObjectKey) (w : p.World)
      → stored (p.queue_forget item w) k ≡ stored w k
  pub done_keeps :
      (item : StatusUpdateWorkItem) (k : ObjectKey) (w : p.World)
      → stored (p.queue_done item w) k ≡ stored w k

abbrev pub same_key : ObjectKey → ObjectKey → Bool
same_key a b = a.namespace == b.namespace && a.name == b.name
