-- ===== src/Workload/Updater.antt =====
-- internal/pkg/workload/updater.go: the triggers of reloads, and the restart of pods.
pub mod Rollouts
pub mod Triggers
pub mod Restart
use reloader_operator.Base.{
  ℕ, ◌+◌, String, Bool, true, false, Option, none, some, List, [], ◌∷◌, ◌==◌, ◌||◌, nat_eq,
  if◌then◌else◌, StringMap, assign,
}
use reloader_operator.Kube.{
  Result, ok, err, errorf, Failure, Object, workload, secret, config_map, LabelSelector, Pod,
  get_annotations, set_annotations,
}
use reloader_operator.Platform.{
  Platform, M, pure, read, write, ◌>>=◌, ◌>>◌, or_fail, updated, deleted_pod,
}
use reloader_operator.Util.Names.{
  annotation_last_reload, kind_deployment, kind_stateful_set, kind_daemon_set,
  rollout_strategy_restart, rollout_strategy_rollout, reload_strategy_env_vars,
}
use reloader_operator.Util.Workloads.{get_workload}
use reloader_operator.Workload.Target.{Target}
use reloader_operator.Workload.Rollout.{
  wrap_result, reload_deployment, reload_stateful_set, reload_daemon_set, reload_delete_deployment,
  reload_delete_stateful_set, reload_delete_daemon_set,
}

-- `util.CreateReloadSourceAnnotation`: the empty text if the encoder fails
abbrev or_empty_text : Result String → String
or_empty_text (ok s) = s
or_empty_text (err e) = ""

-- The selector of a workload.
abbrev pub selector_of : Object → Option LabelSelector
selector_of (workload t w) = w.selector
selector_of (secret s) = none
selector_of (config_map c) = none

-- `selector == nil || selector.MatchLabels == nil`, or else the labels
abbrev pub labels_of : Option LabelSelector → StringMap
labels_of none = none
labels_of (some selector) = selector.match_labels

abbrev pub default_to : String → String → String
default_to d s = if s == "" then d else s

abbrev pub is_workload_kind : String → Bool
is_workload_kind kind =
    kind == kind_deployment || kind == kind_stateful_set || kind == kind_daemon_set

module _ (p : Platform) where
  unfoldable pub create_reload_source_annotation : String → String → String → String → String
  create_reload_source_annotation kind name namespace hash = or_empty_text (
      p.marshal_reload_source
        (record { kind = kind; name = name; namespace = namespace; hash = hash }))

  -- The loop that deletes the pods; the result is the number of deletions that did not fail.
  unfoldable pub delete_pods : List Pod → ℕ → M p.World ℕ
  delete_pods [] deleted_count = pure deleted_count
  delete_pods (pod ∷ pods) deleted_count = do
    failure ← write (deleted_pod pod) (p.delete_pod pod)
    delete_pods pods (elim failure [ none ↦ deleted_count + 1 | some e ↦ deleted_count ])

  unfoldable pub restart_listed_pods : List Pod → M p.World Failure
  restart_listed_pods [] = pure none
  restart_listed_pods (pod ∷ pods) = do
    deleted_count ← delete_pods (pod ∷ pods) 0
    pure (if nat_eq deleted_count 0 then some (errorf ("failed to delete any pods" ∷ [])) else none)

  -- The pods with the labels of a selector.
  unfoldable pub restart_labelled_pods : StringMap → String → M p.World Failure
  restart_labelled_pods none namespace =
      pure (some (errorf ("workload has no label selector" ∷ [])))
  restart_labelled_pods (some labels) namespace = do
    listed ← read (p.list_pods namespace (some labels))
    or_fail (wrap_result ("failed to list pods" ∷ []) listed) restart_listed_pods

  unfoldable pub restart_workload_pods : Option LabelSelector → String → M p.World Failure
  unfolding restart_labelled_pods
  restart_workload_pods selector namespace = restart_labelled_pods (labels_of selector) namespace

  unfoldable pub trigger_restart_rollout : Target → M p.World Failure
  trigger_restart_rollout target = do
    fetched ← get_workload p target.kind target.name target.namespace
    or_fail fetched λ obj.
        if is_workload_kind target.kind
        then restart_workload_pods (selector_of obj) target.namespace
        else pure (some (errorf ("unsupported workload kind: " ∷ target.kind ∷ [])))

  unfoldable pub set_last_reload_annotation : Target → M p.World Failure
  set_last_reload_annotation target = do
    fetched ← get_workload p target.kind target.name target.namespace
    or_fail fetched λ obj. do
      now ← read p.now
      let obj' =
          set_annotations (assign annotation_last_reload (p.format_time now) (get_annotations obj))
            obj
      write (updated obj') (p.update obj')

  -- `err == nil && target.Config == nil && target.PausePeriod != ""`
  abbrev is_stamped : Failure → Target → Bool
  is_stamped (some e) target = false
  is_stamped none target = elim target.config [
    | none ↦ if target.pause_period == "" then false else true
    | some config ↦ false
  ]

  -- The end of both triggers: a failure to stamp the workload is only logged.
  unfoldable pub stamp_after : Target → Failure → M p.World Failure
  stamp_after target failure =
      if is_stamped failure target
      then (do set_last_reload_annotation target; pure failure)
      else pure failure

  unfoldable pub trigger_reload : Target → String → String → String → String → M p.World Failure
  trigger_reload target resource_kind resource_name resource_namespace resource_hash =
      let strategy = default_to reload_strategy_env_vars target.reload_strategy in
      let reload_source =
        create_reload_source_annotation resource_kind resource_name resource_namespace
          resource_hash in
      if default_to rollout_strategy_rollout target.rollout_strategy == rollout_strategy_restart
      then trigger_restart_rollout target
      else if target.kind == kind_deployment
      then (do
        failure ←
            reload_deployment p target.name target.namespace strategy reload_source resource_kind
              resource_name resource_hash
        stamp_after target failure)
      else if target.kind == kind_stateful_set
      then (do
        failure ←
            reload_stateful_set p target.name target.namespace strategy reload_source resource_kind
              resource_name resource_hash
        stamp_after target failure)
      else if target.kind == kind_daemon_set
      then (do
        failure ←
            reload_daemon_set p target.name target.namespace strategy reload_source resource_kind
              resource_name resource_hash
        stamp_after target failure)
      else pure (some (errorf ("unsupported workload kind: " ∷ target.kind ∷ [])))

  unfoldable pub trigger_delete_reload : Target → String → String → M p.World Failure
  trigger_delete_reload target resource_kind resource_name =
      let strategy = default_to reload_strategy_env_vars target.reload_strategy in
      if default_to rollout_strategy_rollout target.rollout_strategy == rollout_strategy_restart
      then trigger_restart_rollout target
      else if target.kind == kind_deployment
      then (do
        failure ←
            reload_delete_deployment p target.name target.namespace strategy resource_kind
              resource_name
        stamp_after target failure)
      else if target.kind == kind_stateful_set
      then (do
        failure ←
            reload_delete_stateful_set p target.name target.namespace strategy resource_kind
              resource_name
        stamp_after target failure)
      else if target.kind == kind_daemon_set
      then (do
        failure ←
            reload_delete_daemon_set p target.name target.namespace strategy resource_kind
              resource_name
        stamp_after target failure)
      else pure (some (errorf ("unsupported workload kind: " ∷ target.kind ∷ [])))
