-- ===== src/Workload/Updater/Rollouts.antt =====
-- What a rollout of a workload writes.
use reloader_operator.Base.{
  String, none, some, List, [], ◌∷◌, ◌==◌, ◌≡◌, ◌≢◌, ◌⊎◌, ◌↔◌, refl, ap, arith, inl, inr, eq_iff,
  Bool-cases, if◌then◌else◌, lookup,
}
use reloader_operator.Kube.{
  Result, ok, err, errorf, GoError, Failure, workload, WorkloadType, Workload, PodTemplateSpec,
  Result-cases,
}
use reloader_operator.Platform.{Platform, State, updated}
use reloader_operator.Util.Names.{annotation_last_reload, annotation_last_reloaded_from}
use reloader_operator.Util.EnvNames.{get_env_var_name}
use reloader_operator.Util.Workloads.{get_workload, get_pod_template}
use reloader_operator.Util.Workloads.Quiet.{get_workload-IsQuiet}
use reloader_operator.Util.Workloads.Answers.{IsRead, get_workload-cases}
use reloader_operator.Workload.Template.{
  apply_env_vars_strategy, apply_annotations_strategy, apply_reload_strategy,
}
use reloader_operator.Workload.Template.Effects.{
  MarksFirst, apply_env_vars_strategy-MarksFirst, apply_env_vars_strategy-fails_iff,
  apply_annotations_strategies,
}
use reloader_operator.Workload.Rollout.{reload_workload_generic, change_template, wrap_failure}

module _ (kind name strategy source hash timestamp : String) where
  -- The change of a template by each strategy: "env-vars" marks the variable of the resource in the
  -- first container with the hash, "annotations" writes the time and the source.
  abbrev pub Changes : PodTemplateSpec → PodTemplateSpec → Type 0
  Changes t t' =
      ((strategy ≡ "env-vars")
        × MarksFirst (get_env_var_name kind name) hash t t'
        × (t'.annotations ≡ t.annotations))
      ⊎ ((strategy ≡ "annotations")
          × (t'.spec ≡ t.spec)
          × ((other : String)
              → lookup other t'.annotations ≡ (
                  if annotation_last_reloaded_from == other
                  then some source
                  else if annotation_last_reload == other
                  then some timestamp
                  else lookup other t.annotations)))

  -- The strategy cannot be applied: it is none of the two, or there is no container to mark.
  abbrev pub Unchangeable : PodTemplateSpec → Type 0
  Unchangeable t =
      ((strategy ≡ "env-vars") × (t.spec.containers ≡ []))
      ⊎ ((strategy ≢ "env-vars") × (strategy ≢ "annotations"))

  abbrev change : PodTemplateSpec → Result PodTemplateSpec
  change = apply_reload_strategy kind name timestamp strategy source hash

  strategy-Changes :
      (t : PodTemplateSpec)
      → ((t' : PodTemplateSpec) × (change t ≡ ok t') × Changes t t')
        ⊎ ((e : GoError) × (change t ≡ err e) × Unchangeable t)
  unfolding apply_reload_strategy
  strategy-Changes t = elim (Bool-cases (strategy == "env-vars")) [
    | inl e ↦
        let same : strategy ≡ "env-vars" = (eq_iff strategy "env-vars").0 e in
        elim (Result-cases (apply_env_vars_strategy kind name hash t)) [
          | inl (t', q) ↦
              let (marks, keeps) = apply_env_vars_strategy-MarksFirst kind name hash t t' q in
              inl (t', rw (e, q) refl, inl (same, marks, keeps))
          | inr (x, q) ↦ inr (
            x,
            rw (e, q) refl,
            inl (same, (apply_env_vars_strategy-fails_iff kind name hash t).0 (x, q)),
          )
        ]
    | inr e ↦ elim (Bool-cases (strategy == "annotations")) [
      | inl e' ↦ inl (
        apply_annotations_strategy timestamp source t,
        rw (e, e') refl,
        inr (
          (eq_iff strategy "annotations").0 e',
          (apply_annotations_strategies timestamp source t "").2,
          λ other. (apply_annotations_strategies timestamp source t other).0,
        ),
      )
      | inr e' ↦ inr (
        errorf ("unknown reload strategy: " ∷ strategy ∷ []),
        rw (e, e') refl,
        inr (
          λ q. ground (arith, eq_iff strategy "env-vars"),
          λ q. ground (arith, eq_iff strategy "annotations"),
        ),
      )
    ]
  ]

wrap_failure-none_iff :
    (context : List String) (f : Failure) → (wrap_failure context f ≡ none) ↔ (f ≡ none)
wrap_failure-none_iff context none = ((λ h. refl), λ h. refl)
wrap_failure-none_iff context (some e) = ((λ h. cc), λ h. cc)

module _ (p : Platform)
    (kind name namespace strategy source resource_kind resource_name hash : String)
    (s : State p.World) where
  -- The state after the workload was read, and the time that the clock shows then.
  abbrev pub read_at : State p.World
  read_at = (get_workload p kind name namespace s).1

  abbrev pub shown : String
  shown = p.format_time (p.now read_at.world).0

  -- The state after the rollout, and its result.
  abbrev pub rollout : Failure × State p.World
  rollout =
      reload_workload_generic p kind name namespace strategy source resource_kind resource_name hash
        s

  -- Nothing is written, since there is no workload or its template cannot be changed.
  abbrev pub NotWritten : Type 0
  NotWritten =
      (rollout.0 ≢ none)
      × (rollout.1.calls ≡ s.calls)
      × (((t : WorkloadType) → (w : Workload) → IsRead p kind name namespace s t w → ⊥)
          ⊎ ((t : WorkloadType) × (w : Workload) × IsRead p kind name namespace s t w
              × Unchangeable resource_kind resource_name strategy source hash shown w.template))

  -- The workload with a template is written; the rollout succeeds exactly if the server accepts it.
  abbrev pub Written : WorkloadType → Workload → PodTemplateSpec → Type 0
  Written t w template =
      (rollout.1.calls ≡ updated (workload t (record w { template = template })) ∷ s.calls)
      × ((rollout.0 ≡ none) ↔ (
          (p.update (workload t (record w { template = template })) (p.now read_at.world).1).0
          ≡ none))

  -- A rollout of a workload makes one update: the workload that the client has, with its pod template
  -- changed as the strategy says and nothing else changed. It succeeds exactly if the server accepts
  -- this update. Where the client has no workload of the kind and the name, or the strategy is unknown
  -- or finds no container to mark, nothing is written and the rollout fails.
  pub reload_workload_generic-outcome :
      NotWritten
      ⊎ ((t : WorkloadType) × (w : Workload) × (template : PodTemplateSpec) × IsRead p kind name
            namespace s t w
          × Changes resource_kind resource_name strategy source hash shown w.template template
          × Written t w template)
  unfolding reload_workload_generic change_template get_pod_template
  reload_workload_generic-outcome =
      let quiet = get_workload-IsQuiet p kind name namespace s in
      elim (get_workload-cases p kind name namespace s) [
        | inr (e, failed, none_read) ↦ inl (rw failed (λ h. cc), rw failed quiet, inl none_read)
        | inl (t, w, read, found) ↦
            elim (strategy-Changes resource_kind resource_name strategy source hash shown
              w.template) [
                | inl (template, q, changes) ↦ inr (
                  t,
                  w,
                  template,
                  read,
                  changes,
                  (
                    rw (found, q)
                        (ap
                          (λ calls. updated (workload t (record w { template = template })) ∷ calls)
                          quiet),
                    rw (found, q)
                        (wrap_failure-none_iff ("failed to update " ∷ kind ∷ [])
                          (p.update (workload t (record w { template = template }))
                            (p.now read_at.world).1).0),
                  ),
                )
                | inr (x, q, unchangeable) ↦
                    inl
                      (rw (found, q) (λ h. cc), rw (found, q) quiet, inr (t, w, read, unchangeable))
              ]
      ]
