-- ===== src/Controller/Reload.antt =====
-- internal/controller/reconciler_reload.go: the reloads of the targets of a change.
pub mod Counting
pub mod Cooldown
pub mod Rounds
use reloader_operator.Base.{
  ℕ, ◌+◌, String, Bool, true, false, none, some, List, [], ◌∷◌, if◌then◌else◌,
}
use reloader_operator.Kube.{GoError, Result, ok, err, Failure}
use reloader_operator.Api.{ReloaderConfig}
use reloader_operator.Platform.{Platform, M, pure, read, ◌>>=◌, ◌>>◌}
use reloader_operator.Alerts.Message.{Message, new_reload_success_message, new_reload_error_message}
use reloader_operator.Alerts.Manager.{AlertManager, send_reload_alert}
use reloader_operator.Workload.Target.{Target}
use reloader_operator.Workload.Updater.{trigger_reload, trigger_delete_reload}
use reloader_operator.Workload.Pause.{is_paused}
use reloader_operator.Controller.Reconciler.{Reconciler}
use reloader_operator.Controller.StatusQueue.{config_key_of, update_target_status}

-- The target with the config that was fetched, or as it was if none could be.
abbrev pub with_fresh : Target → Result ReloaderConfig → Target
with_fresh target (ok fresh) = record target { config = some fresh }
with_fresh target (err e) = target

module _ (p : Platform) where
  unfoldable pub refresh : Target → M p.World Target
  refresh target = elim target.config [
    | none ↦ pure target
    | some config ↦ do
      fresh ← read (p.get_config (config_key_of config))
      pure (with_fresh target fresh)
  ]

  -- `if target.Config != nil { r.updateTargetStatus(…) }`
  unfoldable pub note_status : Target → String → M p.World (Unit {0})
  note_status target error_msg = elim target.config [
    | none ↦ pure tt
    | some config ↦ update_target_status p config target error_msg
  ]

  -- An alert is sent with the instant of the call; a failure to send it is only logged.
  abbrev alert : AlertManager → Message → M p.World Failure
  alert m message = do now ← read p.now; send_reload_alert p m (record message { timestamp = now })

  module _ (r : Reconciler) (resource_kind resource_name : String) where
    unfoldable pub handle_reload_error : Target → GoError → M p.World (Unit {0})
    handle_reload_error target reload_err = do
      alert r.alert_manager (
          new_reload_error_message target.kind target.name target.namespace resource_kind
            resource_name target.reload_strategy reload_err.text)
      note_status target reload_err.text

    unfoldable pub handle_reload_success : Target → M p.World (Unit {0})
    handle_reload_success target = do
      alert r.alert_manager (
          new_reload_success_message target.kind target.name target.namespace resource_kind
            resource_name target.reload_strategy)
      note_status target ""

    -- What follows the trigger: was the reload a success?
    unfoldable pub handle_outcome : Target → Failure → M p.World Bool
    handle_outcome target (some e) = do handle_reload_error target e; pure false
    handle_outcome target none = do handle_reload_success target; pure true

    -- One round of the loop over the targets; `trigger` is the call that both loops differ in.
    unfoldable pub reload_round : (Target → M p.World Failure) → Target → M p.World Bool
    reload_round trigger stale = do
      target ← refresh stale
      paused ← is_paused p target
      elim paused [
        | err e ↦ pure false
        | ok paused ↦
            if paused
            then pure false
            else (do failure ← trigger target; handle_outcome target failure)
      ]

    unfoldable pub reload_each : (Target → M p.World Failure) → List Target → ℕ → M p.World ℕ
    reload_each trigger [] success_count = pure success_count
    reload_each trigger (target ∷ targets) success_count = do
      success ← reload_round trigger target
      reload_each trigger targets (if success then success_count + 1 else success_count)

    unfoldable pub execute_reloads : List Target → String → String → M p.World ℕ
    execute_reloads targets resource_namespace resource_hash =
        reload_each
          (λ target.
            trigger_reload p target resource_kind resource_name resource_namespace resource_hash)
          targets 0

    unfoldable pub execute_delete_reloads : List Target → M p.World ℕ
    execute_delete_reloads targets =
        reload_each (λ target. trigger_delete_reload p target resource_kind resource_name) targets 0
