-- ===== src/Controller/Lifetime.antt =====
-- internal/controller/reconciler_status.go, reloaderconfig_controller.go: the life of a status, from
-- the creation of its ReloaderConfig through the writes of the reconciliation and of the worker, which
-- run side by side.
pub mod Extends
pub mod Sound
use reloader_operator.Base.{ℕ, suc, ◌+◌, ◌<◌, ◌≢◌, ◌++◌, String, ◌≡◌, none, List, [], ◌∷◌}
use reloader_operator.Kube.{ok}
use reloader_operator.Api.{ReloaderConfig, ReloaderConfigStatus}
use reloader_operator.Platform.{Platform, State, updated_status}
use reloader_operator.Workload.Target.{Target}
use reloader_operator.Controller.Status.{process_status_update}
use reloader_operator.Controller.ConfigReconcile.{reconcile_reloader_config}
use reloader_operator.Controller.StatusQueue.{config_key_of, config_item, target_item}

-- The status of a ReloaderConfig that was just created.
abbrev pub fresh_status : ReloaderConfigStatus
fresh_status = record {
  conditions = [];
  last_reload_time = none;
  watched_resource_hashes = none;
  reload_count = 0;
  target_status = [];
  observed_generation = 0;
}

-- What a handler writes: it is given a config with the first status, and writes one with the second.
-- The number tells how many items for resources it has worked on.
pub data Writes (p : Platform) : ReloaderConfigStatus → ReloaderConfigStatus → ℕ → Type 0 where
  reconciles :
      (config config' : ReloaderConfig) (s : State p.World)
      → (reconcile_reloader_config p config s).1.calls ≡ updated_status config' ∷ s.calls
      → Writes p config.status config'.status 0
  records :
      (namespace kind name hash : String) (known config config' : ReloaderConfig)
      (s : State p.World)
      → (p.get_config (config_key_of known) s.world).0 ≡ ok config
      → (process_status_update p (config_item namespace kind name hash known) s).1.calls
        ≡ updated_status config' ∷ s.calls
      → Writes p config.status config'.status 1
  notes :
      (target : Target) (error_msg : String) (known config config' : ReloaderConfig)
      (s : State p.World)
      → (p.get_config (config_key_of known) s.world).0 ≡ ok config
      → (process_status_update p (target_item known target error_msg) s).1.calls
        ≡ updated_status config' ∷ s.calls
      → Writes p config.status config'.status 0

-- A write on its way: the version of the config that was read, the status that is written, and the
-- number of items for resources in it.
pub record Pending : Type 0 where
  pub version : ℕ
  pub status : ReloaderConfigStatus
  pub recorded : ℕ

-- The life of a config: the version and the status that are stored, the writes on their way, and the
-- number of items for resources in the writes that were accepted. Handlers run side by side, and may
-- read a config that is not the latest. The server accepts a write exactly if nothing was written since
-- the config was read, which it tells by the version. Others may write anything but the status.
pub data History (p : Platform) : ℕ → ReloaderConfigStatus → List Pending → ℕ → Type 0 where
  created : History p 0 fresh_status [] 0
  prepared :
      {v n : ℕ} {status : ReloaderConfigStatus} {pending : List Pending}
      (status' : ReloaderConfigStatus) (k : ℕ)
      → History p v status pending n
      → Writes p status status' k
      → History p v status (record { version = v; status = status'; recorded = k } ∷ pending) n
  stale :
      {v n : ℕ} {status : ReloaderConfigStatus} {pending : List Pending} (w : Pending)
      → History p v status pending n
      → w.version < v
      → History p v status (w ∷ pending) n
  accepted :
      {v n : ℕ} {status : ReloaderConfigStatus} (before : List Pending) (w : Pending)
      (after : List Pending)
      → History p v status (before ++ (w ∷ after)) n
      → w.version ≡ v
      → History p (suc v) w.status (before ++ after) (n + w.recorded)
  refused :
      {v n : ℕ} {status : ReloaderConfigStatus} (before : List Pending) (w : Pending)
      (after : List Pending)
      → History p v status (before ++ (w ∷ after)) n
      → w.version ≢ v
      → History p v status (before ++ after) n
  edited :
      {v n : ℕ} {status : ReloaderConfigStatus} {pending : List Pending}
      → History p v status pending n
      → History p (suc v) status pending n
