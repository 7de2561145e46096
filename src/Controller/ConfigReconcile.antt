-- ===== src/Controller/ConfigReconcile.antt =====
-- internal/controller/reloaderconfig_controller.go: a ReloaderConfig was created or updated.
pub mod Keeps
pub mod Outcome
use reloader_operator.Base.{
  String, Bool, true, false, none, some, List, [], ◌∷◌, if◌then◌else◌, not, concat, assign,
}
use reloader_operator.Kube.{Result, ok, err, Failure, Secret, ConfigMap}
use reloader_operator.Api.{
  ReloaderConfig, ReloaderConfigStatus, TargetWorkload, ConditionStatus, condition_true,
  condition_false,
}
use reloader_operator.Platform.{Platform, M, pure, read, write, ◌>>=◌, updated_status}
use reloader_operator.Util.Names.{kind_secret, kind_config_map}
use reloader_operator.Util.Strategies.{get_default_namespace}
use reloader_operator.Util.Keys.{make_resource_key}
use reloader_operator.Util.Hash.{calculate_hash, merge_data_maps}
use reloader_operator.Util.Conditions.{
  set_condition, condition_available, condition_progressing, condition_degraded, reason_reconciled,
  reason_reconciling, reason_resource_not_found, reason_target_not_found,
}
use reloader_operator.Util.Workloads.{workload_exists}

-- `config.Status.WatchedResourceHashes[resourceKey] = hash`
abbrev pub put_hash : String → String → ReloaderConfigStatus → ReloaderConfigStatus
put_hash key hash status = record status {
  watched_resource_hashes = assign key hash status.watched_resource_hashes;
}

-- `err != nil || !exists`
abbrev pub is_missing : Bool × Failure → Bool
is_missing (exists, none) = not exists
is_missing (exists, some e) = true

module _ (p : Platform) where
  -- `util.SetCondition(&config.Status.Conditions, …)`, which reads the clock
  unfoldable pub put_condition :
      String
      → ConditionStatus
      → String
      → String
      → ReloaderConfigStatus
      → M p.World ReloaderConfigStatus
  put_condition kind value reason message status = do
    now ← read p.now
    pure (record status {
      conditions = set_condition now kind value reason message status.conditions;
    })

  unfoldable pub note_secret :
      String → Result Secret → ReloaderConfigStatus → M p.World ReloaderConfigStatus
  note_secret secret_name (err e) status =
      put_condition condition_degraded condition_true reason_resource_not_found
        (concat ("Secret " ∷ secret_name ∷ " not found" ∷ [])) status
  note_secret secret_name (ok s) status = pure (
      put_hash (make_resource_key s.namespace kind_secret s.name)
        (calculate_hash p.sha256 s.contents) status)

  unfoldable pub initialize_watched_secrets :
      String → List String → ReloaderConfigStatus → M p.World ReloaderConfigStatus
  initialize_watched_secrets namespace [] status = pure status
  initialize_watched_secrets namespace (secret_name ∷ names) status = do
    fetched ← read (p.get_secret (record { namespace = namespace; name = secret_name }))
    status' ← note_secret secret_name fetched status
    initialize_watched_secrets namespace names status'

  unfoldable pub note_config_map :
      String → Result ConfigMap → ReloaderConfigStatus → M p.World ReloaderConfigStatus
  note_config_map cm_name (err e) status =
      put_condition condition_degraded condition_true reason_resource_not_found
        (concat ("ConfigMap " ∷ cm_name ∷ " not found" ∷ [])) status
  note_config_map cm_name (ok c) status = pure (
      put_hash (make_resource_key c.namespace kind_config_map c.name)
        (calculate_hash p.sha256 (merge_data_maps c.contents c.binary_data)) status)

  unfoldable pub initialize_watched_config_maps :
      String → List String → ReloaderConfigStatus → M p.World ReloaderConfigStatus
  initialize_watched_config_maps namespace [] status = pure status
  initialize_watched_config_maps namespace (cm_name ∷ names) status = do
    fetched ← read (p.get_config_map (record { namespace = namespace; name = cm_name }))
    status' ← note_config_map cm_name fetched status
    initialize_watched_config_maps namespace names status'

  -- One round of the loop over the targets, and then the rest of it.
  unfoldable pub note_target :
      TargetWorkload
      → Bool × Failure
      → ReloaderConfigStatus
      → Bool
      → M p.World (Bool × ReloaderConfigStatus)
  note_target target found status valid_targets =
      if is_missing found
      then (do
        status' ←
            put_condition condition_degraded condition_true reason_target_not_found
              (concat ("Target " ∷ target.kind ∷ "/" ∷ target.name ∷ " not found" ∷ [])) status
        pure (false, status'))
      else pure (valid_targets, status)

  unfoldable pub validate_target_workloads :
      String
      → List TargetWorkload
      → Bool
      → ReloaderConfigStatus
      → M p.World (Bool × ReloaderConfigStatus)
  validate_target_workloads namespace [] valid_targets status = pure (valid_targets, status)
  validate_target_workloads namespace (target ∷ targets) valid_targets status = do
    found ←
        workload_exists p target.kind target.name (get_default_namespace target.namespace namespace)
    noted ← note_target target found status valid_targets
    validate_target_workloads namespace targets noted.0 noted.1

  -- Phase 2.
  unfoldable pub initialize_watched :
      ReloaderConfig → ReloaderConfigStatus → M p.World ReloaderConfigStatus
  initialize_watched config status = elim config.spec.watched_resources [
    | none ↦ pure status
    | some w ↦ do
      status' ← initialize_watched_secrets config.namespace w.secrets status
      initialize_watched_config_maps config.namespace w.config_maps status'
  ]

  -- Phase 4, but for the last condition.
  unfoldable pub note_validity : Bool → ReloaderConfigStatus → M p.World ReloaderConfigStatus
  note_validity valid_targets status =
      if valid_targets
      then (do
        status' ←
            put_condition condition_available condition_true reason_reconciled
              "ReloaderConfig is active and watching resources" status
        put_condition condition_degraded condition_false reason_reconciled "" status')
      else pure status

  -- The status that the phases up to the last compute.
  unfoldable pub reconciled_status : ReloaderConfig → M p.World ReloaderConfigStatus
  reconciled_status config = do
    status₁ ←
        put_condition condition_progressing condition_true reason_reconciling
          "Reconciling ReloaderConfig"
          (record (config.status) {
            watched_resource_hashes = (elim config.status.watched_resource_hashes [
              | none ↦ some []
              | some m ↦ some m
            ]);
          })
    status₂ ← initialize_watched config status₁
    validated ← validate_target_workloads config.namespace config.spec.targets true status₂
    status₃ ←
        note_validity validated.0 (record (validated.1) { observed_generation = config.generation })
    put_condition condition_progressing condition_false reason_reconciled "" status₃

  unfoldable pub reconcile_reloader_config : ReloaderConfig → M p.World Failure
  reconcile_reloader_config config = do
    status ← reconciled_status config
    let config' = record config { status = status }
    write (updated_status config') (p.update_status config')
