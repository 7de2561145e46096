-- ===== src/Tests/Events.antt =====
-- The handlers of events, on the sample cluster.
use reloader_operator.Base.{
  ℕ, List, ltb, if◌then◌else◌, [], ◌∷◌, none, some, ◌≡◌, ◌≢◌, refl, arith, eq_iff,
}
use reloader_operator.Kube.{GoError, Result, ObjectKey, ok, err, secret, get_annotations}
use reloader_operator.Platform.{State, updated}
use reloader_operator.Util.Hash.{get_resource_data_and_hash}
use reloader_operator.Controller.Events.{
  reconcile_resource_created, reconcile_resource_update, reconcile_resource_deleted, with_hash,
  get_stored_hash,
}
use reloader_operator.Workload.Finder.{
  find_reloader_configs_watching_resource, find_workloads_with_annotations,
}
use reloader_operator.Controller.Discovery.{discover_targets}
use reloader_operator.Controller.Events.Changes.{update_idempotent}
use reloader_operator.Controller.Events.Creations.{
  enqueue_each, queued, reconcile_resource_created-outcome,
}
use reloader_operator.Controller.Events.Creations
use reloader_operator.Controller.Events.Reloading.{
  discovering, reloading, delete_reloading, tracking, reconcile_resource_update-calls,
  reconcile_resource_deleted-calls,
}
use reloader_operator.Util.Keys.{make_resource_key}
use reloader_operator.Workload.Target.{Target}
use reloader_operator.Api.{ReloaderConfig}
use reloader_operator.Tests.Sample.{config, target, platform, cluster, reconciler, db, start}

hash_db : get_resource_data_and_hash (platform cluster).sha256 (secret db) ≡ ok "2c26"
unfolding get_resource_data_and_hash
hash_db = refl

update_idempotent_example :
    reconcile_resource_update
      (platform cluster)
      reconciler
      "Secret"
      (with_hash "2c26" (secret db))
      start
    ≡ (none, start)
update_idempotent_example =
    update_idempotent (platform cluster) reconciler "Secret" (secret db) "2c26" hash_db start

hash_is_new : "2c26" ≢ get_stored_hash (get_annotations (secret db))
unfolding get_stored_hash
hash_is_new e = ground (arith, eq_iff "2c26" "")

-- The discovery and the reloads of an update of the Secret.
abbrev discovery : Result (List Target × List ReloaderConfig) × State ℕ
discovery = discovering (platform cluster) reconciler "Secret" "db" "shop" start

abbrev reloads : List Target → ℕ × State ℕ
reloads targets = reloading (platform cluster) reconciler "Secret" "db" "shop" start targets "2c26"

reconcile_resource_update-calls_example :
    ((targets : List Target) (configs : List ReloaderConfig)
      → discovery.0 ≡ ok (targets, configs)
      → (reconcile_resource_update (platform cluster) reconciler "Secret" (secret db) start).1.calls
        ≡ updated (with_hash "2c26" (secret db))
          ∷ (if ltb 0 (reloads targets).0
              then enqueue_each
                  (platform cluster)
                  "shop"
                  "Secret"
                  "db"
                  "2c26"
                  configs
                  (reloads targets).1.calls
              else (reloads targets).1.calls))
    × ((e : GoError)
        → discovery.0 ≡ err e
        → ((reconcile_resource_update (platform cluster) reconciler "Secret" (secret db) start).0
            ≡ some e)
          × ((reconcile_resource_update
                (platform cluster)
                reconciler
                "Secret"
                (secret db)
                start).1.calls
              ≡ []))
reconcile_resource_update-calls_example =
    reconcile_resource_update-calls (platform cluster) reconciler "Secret" "2c26" (secret db) start
      hash_db refl hash_is_new

abbrev db_key : ObjectKey
db_key = record { namespace = "shop"; name = "db" }

abbrev delete_reloads : List Target → ℕ × State ℕ
delete_reloads targets =
    delete_reloading (platform cluster) reconciler "Secret" "db" "shop" start targets

reconcile_resource_deleted-calls_example :
    ((targets : List Target) (configs : List ReloaderConfig)
      → discovery.0 ≡ ok (targets, configs)
      → ((reconcile_resource_deleted (platform cluster) reconciler "Secret" db_key start).0 ≡ none)
        × ((reconcile_resource_deleted (platform cluster) reconciler "Secret" db_key start).1.calls
            ≡ (if ltb 0 (delete_reloads targets).0
                then enqueue_each
                    (platform cluster)
                    "shop"
                    "Secret"
                    "db"
                    ""
                    (tracking (make_resource_key "shop" "Secret" "db") configs)
                    (delete_reloads targets).1.calls
                else (delete_reloads targets).1.calls)))
    × ((e : GoError)
        → discovery.0 ≡ err e
        → ((reconcile_resource_deleted (platform cluster) reconciler "Secret" db_key start).0
            ≡ some e)
          × ((reconcile_resource_deleted
                (platform cluster)
                reconciler
                "Secret"
                db_key
                start).1.calls
              ≡ []))
reconcile_resource_deleted-calls_example =
    reconcile_resource_deleted-calls (platform cluster) reconciler "Secret" db_key start

-- The discovery, the items and the reloads of a creation of the Secret.
abbrev queued_items : List ReloaderConfig → State ℕ
queued_items configs =
    queued (platform cluster) reconciler "Secret" "2c26" (secret db) start configs

abbrev creation_reloads : List Target → List ReloaderConfig → ℕ × State ℕ
creation_reloads targets configs =
    Creations.reloading (platform cluster) reconciler "Secret" "2c26" (secret db) start targets
      configs

reconcile_resource_created-outcome_example :
    ((targets : List Target) (configs : List ReloaderConfig)
      → discovery.0 ≡ ok (targets, configs)
      → ((queued_items configs).calls
          ≡ enqueue_each (platform cluster) "shop" "Secret" "db" "2c26" configs [])
        × ((reconcile_resource_created
              (platform cluster)
              reconciler
              "Secret"
              (secret db)
              start).1.calls
            ≡ updated (with_hash "2c26" (secret db)) ∷ (creation_reloads targets configs).1.calls))
    × ((e : GoError)
        → discovery.0 ≡ err e
        → ((reconcile_resource_created (platform cluster) reconciler "Secret" (secret db) start).0
            ≡ some e)
          × ((reconcile_resource_created
                (platform cluster)
                reconciler
                "Secret"
                (secret db)
                start).1.calls
              ≡ []))
reconcile_resource_created-outcome_example =
    reconcile_resource_created-outcome (platform cluster) reconciler "Secret" "2c26" (secret db)
      start hash_db refl

discovers_db :
    (discover_targets (platform cluster) reconciler "Secret" "db" "shop" start).0
    ≡ ok (target ∷ [], config ∷ [])
unfolding discover_targets reloader_operator.Workload.Finder.find_reloader_configs_watching_resource
    reloader_operator.Workload.Finder.find_workloads_with_annotations
    reloader_operator.Controller.Discovery.merge_targets
    reloader_operator.Controller.Discovery.without_ignoring
    reloader_operator.Controller.Discovery.config_targets
    reloader_operator.Workload.Finder.concerned_configs
    reloader_operator.Workload.Finder.config_is_concerned
    reloader_operator.Workload.Finder.config_watches_resource
    reloader_operator.Util.Names.contains_string reloader_operator.Workload.Finder.watch_list
    reloader_operator.Controller.Discovery.should_ignore_resource
    reloader_operator.Controller.Discovery.any_ignores
    reloader_operator.Controller.Discovery.ignores
    reloader_operator.Controller.Discovery.config_target
    reloader_operator.Workload.Finder.annotated_targets
    reloader_operator.Util.Strategies.get_default_namespace
    reloader_operator.Util.Strategies.get_default_rollout_strategy
    reloader_operator.Util.Strategies.get_default_reload_strategy
discovers_db = refl
