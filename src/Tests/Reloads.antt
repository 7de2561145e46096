-- ===== src/Tests/Reloads.antt =====
-- The loop over the targets, on the sample cluster.
use reloader_operator.Base.{
  ℕ, ◌≤◌, Bool, true, false, none, some, ◌≡◌, ◌≢◌, refl, List, [], ◌∷◌, length,
}
use reloader_operator.Kube.{GoError, Result, ok, Failure}
use reloader_operator.Api.{ReloaderConfig}
use reloader_operator.Platform.{State, latest, enqueued}
use reloader_operator.Util.Workloads.{get_workload}
use reloader_operator.Workload.Target.{Target}
use reloader_operator.Workload.Pause.{is_paused}
use reloader_operator.Workload.Template.{apply_reload_strategy}
use reloader_operator.Workload.Rollout.{reload_workload_generic}
use reloader_operator.Workload.Updater.{trigger_reload, trigger_delete_reload}
use reloader_operator.Controller.StatusQueue.{target_item}
use reloader_operator.Controller.Reload.{reload_round, execute_reloads, execute_delete_reloads}
use reloader_operator.Controller.Reload.Rounds.{
  fresh_target, refreshed, checked, reload_round-outcome,
}
use reloader_operator.Controller.Reload.Counting.{successes, reload_rounds, execute_reloads-rounds}
use reloader_operator.Tests.Sample.{platform, cluster, reconciler, start, target}

-- The reload of the sample Secret.
abbrev trigger : Target → State ℕ → Failure × State ℕ
trigger t = trigger_reload (platform cluster) t "Secret" "db" "shop" "2c26"

-- The round of the sample target: its fresh config, and the states after the two reads.
abbrev round : Bool × State ℕ
round = reload_round (platform cluster) reconciler "Secret" "db" trigger target start

abbrev fresh : Target
fresh = fresh_target (platform cluster) reconciler "Secret" "db" trigger target start

abbrev paused : Result Bool
paused =
    (is_paused (platform cluster) fresh
      (refreshed (platform cluster) reconciler "Secret" "db" trigger target start)).0

abbrev triggered : Failure
triggered =
    (trigger fresh (checked (platform cluster) reconciler "Secret" "db" trigger target start)).0

reload_round-outcome_example :
    (paused ≢ ok false → (round.1.calls ≡ []) × (round.0 ≡ false))
    × (paused ≡ ok false
        → ((e : GoError)
            → triggered ≡ some e
            → (round.0 ≡ false)
              × ((config : ReloaderConfig)
                  → fresh.config ≡ some config
                  → latest round.1.calls ≡ some (enqueued (target_item config fresh e.text))))
          × (triggered ≡ none
              → (round.0 ≡ true)
                × ((config : ReloaderConfig)
                    → fresh.config ≡ some config
                    → latest round.1.calls ≡ some (enqueued (target_item config fresh "")))))
reload_round-outcome_example =
    reload_round-outcome (platform cluster) reconciler "Secret" "db" trigger target start

-- The round is not paused, and is a success.
not_paused : paused ≡ ok false
unfolding is_paused reloader_operator.Controller.Reload.refresh
    reloader_operator.Util.Durations.parse_duration
    reloader_operator.Workload.Pause.is_paused_within
    reloader_operator.Workload.Pause.is_paused_in_status
not_paused = refl

round_succeeds : round.0 ≡ true
unfolding reload_round is_paused reloader_operator.Controller.Reload.refresh
    reloader_operator.Util.Durations.parse_duration
    reloader_operator.Workload.Pause.is_paused_within
    reloader_operator.Workload.Pause.is_paused_in_status
    reloader_operator.Controller.Reload.handle_outcome trigger_reload
    reloader_operator.Workload.Updater.stamp_after reload_workload_generic get_workload
    reloader_operator.Workload.Rollout.change_template
    reloader_operator.Util.Workloads.get_pod_template apply_reload_strategy
round_succeeds = refl

-- The loops over the target and one whose pause period cannot be parsed.
abbrev targets : List Target
targets = target ∷ record target { pause_period = "soon" } ∷ []

abbrev delete_trigger : Target → State ℕ → Failure × State ℕ
delete_trigger t = trigger_delete_reload (platform cluster) t "Secret" "db"

abbrev rounds : List Bool × State ℕ
rounds = reload_rounds (platform cluster) reconciler "Secret" "db" trigger targets start

abbrev delete_rounds : List Bool × State ℕ
delete_rounds =
    reload_rounds (platform cluster) reconciler "Secret" "db" delete_trigger targets start

execute_reloads-rounds_example :
    ((execute_reloads (platform cluster) reconciler "Secret" "db" targets "shop" "2c26" start
        ≡ (successes rounds.0, rounds.1))
      × (length rounds.0 ≡ 2)
      × ((execute_reloads (platform cluster) reconciler "Secret" "db" targets "shop" "2c26" start).0
          ≤ 2))
    × ((execute_delete_reloads (platform cluster) reconciler "Secret" "db" targets start
          ≡ (successes delete_rounds.0, delete_rounds.1))
        × (length delete_rounds.0 ≡ 2)
        × ((execute_delete_reloads (platform cluster) reconciler "Secret" "db" targets start).0
            ≤ 2))
execute_reloads-rounds_example =
    execute_reloads-rounds (platform cluster) reconciler "Secret" "db" targets "shop" "2c26" start
