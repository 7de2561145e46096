-- ===== src/Controller/Setup.antt =====
-- internal/controller/reloaderconfig_controller.go: what `SetupWithManager` hands to the manager.
use reloader_operator.Base.{Bool, true, if◌then◌else◌, List, [], ◌∷◌}
use reloader_operator.Kube.{ObjectKey, Object}
use reloader_operator.Platform.{Platform}
use reloader_operator.Controller.Predicates.{Funcs, secret_predicates, config_map_predicates}
use reloader_operator.Controller.Events.{map_secret_to_requests, map_config_map_to_requests}
use reloader_operator.Controller.Reconciler.{Reconciler}

-- The two functions that run with the manager.
pub data Runnable : Type 0 where
  shut_down_status_queue initialize_controllers : Runnable

-- The atomic flag after `initialize_controllers`, for the answer of `WaitForCacheSync`.
unfoldable pub after_cache_sync : Bool → Reconciler → Reconciler
after_cache_sync synced r = if synced then record r { controllers_initialized = true } else r

-- A `Watches` call of the builder: the requests for an object, and the events that are let through.
pub record Watch (W : Type 0) : Type 0 where
  pub requests : Object → List ObjectKey
  pub predicates : Funcs W

-- The two calls, for Secrets and for ConfigMaps.
unfoldable pub watches : (p : Platform) → Reconciler → List (Watch p.World)
watches p r =
    record { requests = map_secret_to_requests; predicates = secret_predicates p r }
    ∷ record { requests = map_config_map_to_requests; predicates = config_map_predicates p r }
    ∷ []
