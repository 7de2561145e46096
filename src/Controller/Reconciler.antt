-- ===== src/Controller/Reconciler.antt =====
-- internal/controller/reloaderconfig_controller.go: the configuration of the reconciler. The client,
-- the finder, the updater and the queue are the platform.
use reloader_operator.Base.{String, Bool, Option, GoMap}
use reloader_operator.Platform.{Selector}
use reloader_operator.Alerts.Manager.{AlertManager}

-- `controllers_initialized` is what the atomic flag holds when it is read.
pub record Reconciler : Type 0 where
  pub alert_manager : AlertManager
  pub reload_on_create : Bool
  pub reload_on_delete : Bool
  pub rollout_strategy : String
  pub reload_strategy : String
  pub resource_label_selector : Option Selector
  pub namespace_selector : Option Selector
  pub ignored_namespaces : GoMap Bool
  pub controllers_initialized : Bool
