-- ===== src/Tests/Lifetimes.antt =====
-- The life of the status of the sample config: two reconciliations read it as it was created, one of
-- them wins, and then the worker records a reload.
use Prim.Native.Nat.{◌%◌, ◌^◌}
use reloader_operator.Base.{ℕ, [], ◌∷◌, ◌≡◌, refl, arith}
use reloader_operator.Kube.{ok}
use reloader_operator.Api.{ReloaderConfig}
use reloader_operator.Platform.{Platform, State, updated_status}
use reloader_operator.Controller.StatusQueue.{config_item}
use reloader_operator.Controller.Status.{config_status_after, process_status_update}
use reloader_operator.Controller.Status.WellFormed.{WellFormed}
use reloader_operator.Controller.ConfigReconcile.{reconciled_status, reconcile_reloader_config}
use reloader_operator.Controller.Lifetime.{
  Pending, History, created, prepared, accepted, refused, reconciles, records,
}
use reloader_operator.Controller.Lifetime.Sound.{History-Sound}
use reloader_operator.Tests.Sample.{platform, cluster, start, config}

abbrev later : State ℕ
later = record start { world = 200 }

abbrev reconciled_at : State ℕ → ReloaderConfig
reconciled_at s = record config { status = (reconciled_status (platform cluster) config s).0 }

-- A cluster that holds the config as it was reconciled first.
abbrev holding : Platform
holding = platform (record cluster { config = ok (reconciled_at start) })

abbrev reloaded_config : ReloaderConfig
reloaded_config = record (reconciled_at start) {
  status = config_status_after 100 "shop" "Secret" "db" "2c26" (reconciled_at start).status;
}

reconciliation :
    (reconcile_reloader_config holding config start).1.calls
    ≡ updated_status (reconciled_at start) ∷ start.calls
unfolding reconcile_reloader_config reconciled_status
    reloader_operator.Controller.ConfigReconcile.put_condition
    reloader_operator.Controller.ConfigReconcile.note_validity
    reloader_operator.Controller.ConfigReconcile.validate_target_workloads
    reloader_operator.Controller.ConfigReconcile.note_target
    reloader_operator.Util.Workloads.workload_exists
    reloader_operator.Controller.ConfigReconcile.initialize_watched
    reloader_operator.Controller.ConfigReconcile.initialize_watched_config_maps
    reloader_operator.Controller.ConfigReconcile.initialize_watched_secrets
    reloader_operator.Controller.ConfigReconcile.note_secret
reconciliation = refl

later_reconciliation :
    (reconcile_reloader_config holding config later).1.calls
    ≡ updated_status (reconciled_at later) ∷ later.calls
unfolding reconcile_reloader_config reconciled_status
    reloader_operator.Controller.ConfigReconcile.put_condition
    reloader_operator.Controller.ConfigReconcile.note_validity
    reloader_operator.Controller.ConfigReconcile.validate_target_workloads
    reloader_operator.Controller.ConfigReconcile.note_target
    reloader_operator.Util.Workloads.workload_exists
    reloader_operator.Controller.ConfigReconcile.initialize_watched
    reloader_operator.Controller.ConfigReconcile.initialize_watched_config_maps
    reloader_operator.Controller.ConfigReconcile.initialize_watched_secrets
    reloader_operator.Controller.ConfigReconcile.note_secret
later_reconciliation = refl

record_reload :
    (process_status_update holding (config_item "shop" "Secret" "db" "2c26" config) start).1.calls
    ≡ updated_status reloaded_config ∷ start.calls
unfolding process_status_update reloader_operator.Controller.Status.apply_status_update
    reloader_operator.Controller.Status.update_reloader_config_status_direct
record_reload = refl

abbrev lost : Pending
lost = record { version = 0; status = (reconciled_at later).status; recorded = 0 }

abbrev first : Pending
first = record { version = 0; status = (reconciled_at start).status; recorded = 0 }

abbrev second : Pending
second = record { version = 1; status = reloaded_config.status; recorded = 1 }

both_prepared : History holding 0 config.status (lost ∷ first ∷ []) 0
both_prepared =
    prepared (reconciled_at later).status 0
      (prepared (reconciled_at start).status 0 created
        (reconciles config (reconciled_at start) start reconciliation))
      (reconciles config (reconciled_at later) later later_reconciliation)

first_wins : History holding 1 (reconciled_at start).status [] 0
first_wins = refused [] lost [] (accepted (lost ∷ []) first [] both_prepared refl) (omega arith)

reload_recorded : History holding 2 reloaded_config.status [] 1
reload_recorded =
    accepted [] second []
      (prepared reloaded_config.status 1 first_wins (
        records "shop" "Secret" "db" "2c26" config (reconciled_at start) reloaded_config start refl
          record_reload))
      refl

History-Sound_example :
    WellFormed reloaded_config.status × (reloaded_config.status.reload_count ≡ 1 % 2 ^ 64)
History-Sound_example = History-Sound holding reload_recorded
