-- ===== src/Controller/ConfigReconcile/Outcome.antt =====
-- What the reconciliation of a ReloaderConfig leaves behind.
use reloader_operator.Base.{
  String, Bool, true, false, none, some, List, [], ◌∷◌, ◌≡◌, refl, ◌∙◌, arith, inl, inr,
  Option-cases, ap,
}
use reloader_operator.Kube.{Result, ok, err, Secret, ConfigMap}
use reloader_operator.Api.{ReloaderConfig, ReloaderConfigStatus, TargetWorkload, condition_true}
use reloader_operator.Platform.{Platform, State, updated_status}
use reloader_operator.Platform.Quiet.{IsQuiet}
use reloader_operator.Util.Strategies.{get_default_namespace}
use reloader_operator.Util.Conditions.{
  is_condition_true, is_condition_false, condition_available, condition_progressing,
  condition_degraded, reason_reconciling,
}
use reloader_operator.Util.Conditions.Laws.{
  is_condition_true-set_self, is_condition_false-set_self, is_condition_true-set_ne,
  is_condition_false-set_ne,
}
use reloader_operator.Util.Workloads.{workload_exists}
use reloader_operator.Util.Workloads.Quiet.{workload_exists-IsQuiet}
use reloader_operator.Controller.ConfigReconcile.Keeps.{
  NotesReloadsOf, reconciled_status-NotesReloadsOf,
}
use reloader_operator.Controller.ConfigReconcile.{
  put_condition, note_secret, initialize_watched_secrets, note_config_map,
  initialize_watched_config_maps, note_target, validate_target_workloads, initialize_watched,
  note_validity, reconciled_status, reconcile_reloader_config,
}

module _ (p : Platform) where
  note_secret-IsQuiet :
      (name : String) (r : Result Secret) (status : ReloaderConfigStatus)
      → IsQuiet (note_secret p name r status)
  unfolding note_secret put_condition
  note_secret-IsQuiet name (ok x) status s = refl
  note_secret-IsQuiet name (err e) status s = refl

  secrets-IsQuiet :
      (namespace : String) (names : List String) (status : ReloaderConfigStatus)
      → IsQuiet (initialize_watched_secrets p namespace names status)
  unfolding initialize_watched_secrets
  secrets-IsQuiet namespace [] status s = refl
  secrets-IsQuiet namespace (n ∷ ns) status s =
      secrets-IsQuiet namespace ns _ _ ∙ note_secret-IsQuiet n _ status _

  note_config_map-IsQuiet :
      (name : String) (r : Result ConfigMap) (status : ReloaderConfigStatus)
      → IsQuiet (note_config_map p name r status)
  unfolding note_config_map put_condition
  note_config_map-IsQuiet name (ok x) status s = refl
  note_config_map-IsQuiet name (err e) status s = refl

  config_maps-IsQuiet :
      (namespace : String) (names : List String) (status : ReloaderConfigStatus)
      → IsQuiet (initialize_watched_config_maps p namespace names status)
  unfolding initialize_watched_config_maps
  config_maps-IsQuiet namespace [] status s = refl
  config_maps-IsQuiet namespace (n ∷ ns) status s =
      config_maps-IsQuiet namespace ns _ _ ∙ note_config_map-IsQuiet n _ status _

  watched-IsQuiet :
      (config : ReloaderConfig) (status : ReloaderConfigStatus)
      → IsQuiet (initialize_watched p config status)
  unfolding initialize_watched
  watched-IsQuiet config status s = elim (Option-cases config.spec.watched_resources) [
    | inl e ↦ rw e refl
    | inr (w, e) ↦ rw e (
        config_maps-IsQuiet config.namespace w.config_maps _ _
        ∙ secrets-IsQuiet config.namespace w.secrets status s)
  ]

  targets-IsQuiet :
      (namespace : String) (targets : List TargetWorkload) (valid : Bool)
      (status : ReloaderConfigStatus)
      → IsQuiet (validate_target_workloads p namespace targets valid status)
  unfolding validate_target_workloads note_target put_condition
  targets-IsQuiet namespace [] valid status s = refl
  targets-IsQuiet namespace (t ∷ ts) valid status s =
      let ns = get_default_namespace t.namespace namespace in
      let (found, s') = workload_exists p t.kind t.name ns s in
      let (noted, s'') = note_target p t found status valid s' in
      targets-IsQuiet namespace ts noted.0 noted.1 s''
      ∙ (ground arith ∙ workload_exists-IsQuiet p t.kind t.name ns s)

  validity-IsQuiet :
      (valid : Bool) (status : ReloaderConfigStatus) → IsQuiet (note_validity p valid status)
  unfolding note_validity put_condition
  validity-IsQuiet true status s = refl
  validity-IsQuiet false status s = refl

  module _ (config : ReloaderConfig) (s : State p.World) where
    -- The status and the state after each phase.
    abbrev started : ReloaderConfigStatus × State p.World
    started =
        put_condition p condition_progressing condition_true reason_reconciling
          "Reconciling ReloaderConfig"
          (record (config.status) {
            watched_resource_hashes = (elim config.status.watched_resource_hashes [
              | none ↦ some []
              | some m ↦ some m
            ]);
          })
          s

    abbrev initialized : ReloaderConfigStatus × State p.World
    initialized = initialize_watched p config started.0 started.1

    abbrev pub validated : (Bool × ReloaderConfigStatus) × State p.World
    validated =
        validate_target_workloads p config.namespace config.spec.targets true initialized.0
          initialized.1

    abbrev judged : ReloaderConfigStatus × State p.World
    judged =
        note_validity p validated.0.0
          (record (validated.0.1) { observed_generation = config.generation }) validated.1

    started-calls : started.1.calls ≡ s.calls
    unfolding put_condition
    started-calls = refl

    judged-calls : judged.1.calls ≡ s.calls
    judged-calls =
        validity-IsQuiet validated.0.0 _ validated.1
        ∙ (targets-IsQuiet config.namespace config.spec.targets true initialized.0 initialized.1
            ∙ (watched-IsQuiet config started.0 started.1 ∙ started-calls))

    pub reconcile_reloader_config-written :
        (reconcile_reloader_config p config s).1.calls
        ≡ updated_status (record config { status = (reconciled_status p config s).0 }) ∷ s.calls
    unfolding reconcile_reloader_config reconciled_status put_condition
    reconcile_reloader_config-written =
        let status = (reconciled_status p config s).0 in
        ap (λ cs. updated_status (record config { status = status }) ∷ cs) judged-calls

    -- The status that is written says that the reconciliation is over (Progressing is False) and which
    -- generation of the spec it saw.
    pub reconciled_status-finished :
        (is_condition_false (reconciled_status p config s).0.conditions condition_progressing
          ≡ true)
        × ((reconciled_status p config s).0.observed_generation ≡ config.generation)
    unfolding reconciled_status put_condition note_validity
    reconciled_status-finished = (is_condition_false-set_self _ _ _ _ _, ground arith)

    -- The reconciliation of a ReloaderConfig makes one call that leaves a mark: it writes the config with
    -- a new status, and with nothing else changed, whatever is missing. The new status has the count of
    -- reloads, the time of the last one and the entries of the targets as they were, says that the
    -- reconciliation is over (Progressing is False), and which generation of the spec it saw.
    pub reconcile_reloader_config-calls :
        (status : ReloaderConfigStatus) × ((reconcile_reloader_config p config s).1.calls
          ≡ updated_status (record config { status = status }) ∷ s.calls)
        × NotesReloadsOf config.status status
        × (is_condition_false status.conditions condition_progressing ≡ true)
        × (status.observed_generation ≡ config.generation)
    reconcile_reloader_config-calls = (
      (reconciled_status p config s).0,
      reconcile_reloader_config-written,
      reconciled_status-NotesReloadsOf p config s,
      reconciled_status-finished.0,
      reconciled_status-finished.1,
    )

    -- If every target was found to exist, the status that is written says Available and not Degraded,
    -- also where a watched Secret or ConfigMap was not found.
    pub reconciled_status-available :
        validated.0.0 ≡ true
        → (is_condition_true (reconciled_status p config s).0.conditions condition_available ≡ true)
          × (is_condition_false (reconciled_status p config s).0.conditions condition_degraded
              ≡ true)
    unfolding reconciled_status put_condition note_validity
    reconciled_status-available valid = rw valid (
      is_condition_true-set_ne _ _ _ _ _ _ _ refl
          ∙ (is_condition_true-set_ne _ _ _ _ _ _ _ refl ∙ is_condition_true-set_self _ _ _ _ _),
      is_condition_false-set_ne _ _ _ _ _ _ _ refl ∙ is_condition_false-set_self _ _ _ _ _,
    )
