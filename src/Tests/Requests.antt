-- ===== src/Tests/Requests.antt =====
-- Requests and ReloaderConfigs, on the sample cluster.
use reloader_operator.Base.{true, false, none, ◌≡◌, inl, refl, [], ◌∷◌, arith, eq_iff}
use reloader_operator.Kube.{ok, err, ObjectKey, Secret, ConfigMap}
use reloader_operator.Api.{ReloaderConfigStatus}
use reloader_operator.Platform.{Platform, updated_status}
use reloader_operator.Util.Hash.{calculate_hash, merge_data_maps}
use reloader_operator.Util.Conditions.{
  is_condition_true, is_condition_false, condition_available, condition_progressing,
  condition_degraded,
}
use reloader_operator.Controller.Events.{reconcile_secret_created}
use reloader_operator.Controller.ConfigReconcile.{reconciled_status, reconcile_reloader_config}
use reloader_operator.Controller.ConfigReconcile.Keeps.{NotesReloadsOf}
use reloader_operator.Controller.ConfigReconcile.Outcome.{
  validated, reconcile_reloader_config-calls, reconciled_status-available,
}
use reloader_operator.Controller.Reconcile.{reconcile, reconcile_found_secret}
use reloader_operator.Controller.Reconciler.{Reconciler}
use reloader_operator.Controller.Reconcile.Dispatch.{
  IsNotFound, reconcile-nothing_found, empty_secret_created_again, written,
}
use reloader_operator.Controller.Reconcile.Settled.{Marks, written_map, reconcile-settled}
use reloader_operator.Tests.Sample.{
  platform, cluster, start, Cluster, reconciler, not_found, config, db,
}

reconcile_reloader_config-calls_example :
    (status : ReloaderConfigStatus) × ((reconcile_reloader_config
        (platform cluster)
        config
        start).1.calls
      ≡ updated_status (record config { status = status }) ∷ [])
    × NotesReloadsOf config.status status
    × (is_condition_false status.conditions condition_progressing ≡ true)
    × (status.observed_generation ≡ 3)
reconcile_reloader_config-calls_example =
    reconcile_reloader_config-calls (platform cluster) config start

targets_exist : (validated (platform cluster) config start).0.0 ≡ true
unfolding reloader_operator.Controller.ConfigReconcile.validate_target_workloads
    reloader_operator.Controller.ConfigReconcile.note_target
    reloader_operator.Util.Workloads.workload_exists
targets_exist = refl

-- The watched Secret of the sample config does not exist.
reconciled_status-available_example :
    (is_condition_true
        (reconciled_status (platform cluster) config start).0.conditions
        condition_available
      ≡ true)
    × (is_condition_false
          (reconciled_status (platform cluster) config start).0.conditions
          condition_degraded
        ≡ true)
reconciled_status-available_example =
    reconciled_status-available (platform cluster) config start targets_exist

abbrev key : ObjectKey
key = record { namespace = "shop"; name = "reloads" }

-- Nothing has the key, and reloads on deletion are off.
abbrev empty : Cluster
empty = record cluster { config = err not_found }

abbrev without_deletion : Reconciler
without_deletion = record reconciler { reload_on_delete = false }

reconcile-nothing_found_example :
    ((reconcile (platform empty) without_deletion key start).0 ≡ none)
    × ((reconcile (platform empty) without_deletion key start).1.calls ≡ [])
reconcile-nothing_found_example =
    reconcile-nothing_found (platform empty) without_deletion key start (not_found, refl, refl)
      (not_found, refl, refl) (not_found, refl, refl) (inl refl)

abbrev empty_secret : Secret
empty_secret = record db { contents = none }

empty_secret_created_again_example :
    reconcile_found_secret
      (platform cluster)
      reconciler
      (written (platform cluster) empty_secret)
      start
    ≡ reconcile_secret_created
        (platform cluster)
        reconciler
        (written (platform cluster) empty_secret)
        start
empty_secret_created_again_example =
    empty_secret_created_again (platform cluster) reconciler empty_secret start (inl refl) refl

-- A cluster that holds the Secret as it was written.
abbrev holding : Platform
holding = record (platform empty) { get_secret = λ key w. (ok (written (platform empty) db), w) }

hash_of_db : calculate_hash holding.sha256 db.contents ≡ "2c26"
unfolding calculate_hash
hash_of_db = refl

db_Marks : Marks reconciler (calculate_hash holding.sha256 db.contents)
db_Marks = inl (λ e. ground (arith, hash_of_db, e, eq_iff "2c26" ""))

reconcile-settled_example :
    ((x : Secret)
      → ok (written (platform empty) db) ≡ ok (written holding x)
      → Marks reconciler (calculate_hash holding.sha256 x.contents)
      → ((reconcile holding reconciler key start).0 ≡ none)
        × ((reconcile holding reconciler key start).1.calls ≡ []))
    × ((x : ConfigMap)
        → IsNotFound holding reconciler key start (ok (written (platform empty) db))
        → err not_found ≡ ok (written_map holding x)
        → Marks reconciler
            (calculate_hash holding.sha256 (merge_data_maps x.contents x.binary_data))
        → ((reconcile holding reconciler key start).0 ≡ none)
          × ((reconcile holding reconciler key start).1.calls ≡ []))
reconcile-settled_example = reconcile-settled holding reconciler key start (not_found, refl, refl)

db_settled :
    ((reconcile holding reconciler key start).0 ≡ none)
    × ((reconcile holding reconciler key start).1.calls ≡ [])
db_settled =
    (reconcile-settled holding reconciler key start (not_found, refl, refl)).0 db refl db_Marks
