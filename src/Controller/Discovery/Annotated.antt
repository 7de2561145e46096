-- ===== src/Controller/Discovery/Annotated.antt =====
-- Which of the workloads that the client lists become targets by their annotations.
use reloader_operator.Base.{
  String, Bool, true, false, none, List, [], ◌∷◌, ◌++◌, ◌≡◌, ◌⊎◌, refl, sym, subst, inl, inr, All,
  All-append, All-implies, Some, Some-append_left, Some-append_right, Bool-cases, index, StringMap,
}
use reloader_operator.Kube.{
  Result, ok, Result-cases, Workload, WorkloadType, workload, deployment, stateful_set, daemon_set,
}
use reloader_operator.Platform.{Platform, State}
use reloader_operator.Util.Names.{
  annotation_deployment_pause_period, annotation_stateful_set_pause_period,
  annotation_daemon_set_pause_period,
}
use reloader_operator.Util.Workloads.Answers.{type_name}
use reloader_operator.Workload.Target.{Target}
use reloader_operator.Workload.Annotations.{should_reload_from_annotations}
use reloader_operator.Workload.Finder.{
  annotated_target, annotated_targets, find_workloads_with_annotations,
}
use reloader_operator.Controller.Discovery.Sources.{OnOk}

-- The annotation that states the pause period of a workload.
abbrev pause_annotation : WorkloadType → String
pause_annotation deployment = annotation_deployment_pause_period
pause_annotation stateful_set = annotation_stateful_set_pause_period
pause_annotation daemon_set = annotation_daemon_set_pause_period

-- The target is the workload, without a config.
abbrev pub Is : WorkloadType → Workload → Target → Type 0
Is t w target =
    (target.kind ≡ type_name t)
    × (target.name ≡ w.name)
    × (target.namespace ≡ w.namespace)
    × (target.pause_period ≡ index (pause_annotation t) w.annotations)
    × (target.require_reference ≡ false)
    × (target.config ≡ none)

-- What the client answers if it is asked for the Deployments, the StatefulSets and the DaemonSets of a
-- namespace, in this order.
abbrev pub listing : (p : Platform) → String → p.World → WorkloadType → Result (List Workload)
listing p namespace w deployment = (p.list_workloads deployment namespace w).0
listing p namespace w stateful_set =
    (p.list_workloads stateful_set namespace (p.list_workloads deployment namespace w).1).0
listing p namespace w daemon_set =
    (p.list_workloads daemon_set namespace
      (p.list_workloads stateful_set namespace (p.list_workloads deployment namespace w).1).1).0

abbrev by_type : List Workload → List Workload → List Workload → WorkloadType → List Workload
by_type ds ss es deployment = ds
by_type ds ss es stateful_set = ss
by_type ds ss es daemon_set = es

module _ (kind name : String) (m : StringMap) where
  abbrev asks : WorkloadType → Workload → Bool
  asks t w = should_reload_from_annotations kind name (workload t w) m

  -- The target is a workload of the list whose annotations ask for the reload.
  abbrev pub AskedBy : WorkloadType → List Workload → Target → Type 0
  AskedBy t ws target = Some (λ w. (asks t w ≡ true) × Is t w target) ws

  -- Each workload of the list whose annotations ask for the reload is a target.
  abbrev pub NoneOmitted : WorkloadType → List Workload → List Target → Type 0
  NoneOmitted t ws targets = All (λ w. (asks t w ≡ false) ⊎ Some (Is t w) targets) ws

  abbrev of_type : WorkloadType → List Workload → List Target
  of_type t ws = annotated_targets kind name m t (type_name t) (pause_annotation t) ws

  of_type-AskedBy : (t : WorkloadType) (ws : List Workload) → All (AskedBy t ws) (of_type t ws)
  unfolding annotated_targets annotated_target
  of_type-AskedBy t [] = tt
  of_type-AskedBy t (w ∷ ws) =
      let rest : All (AskedBy t (w ∷ ws)) (of_type t ws) =
        All-implies (AskedBy t ws) (AskedBy t (w ∷ ws)) (of_type t ws) (λ x h. inr h)
          (of_type-AskedBy t ws) in
      elim (Bool-cases (asks t w)) [
        | inl e ↦ rw e (inl (e, (refl, refl, refl, refl, refl, refl)), rest)
        | inr e ↦ rw e rest
      ]

  -- More targets omit no workload.
  pub NoneOmitted-more :
      (t : WorkloadType) (ws : List Workload) (targets more : List Target)
      → ((w : Workload) → Some (Is t w) targets → Some (Is t w) more)
      → NoneOmitted t ws targets
      → NoneOmitted t ws more
  NoneOmitted-more t ws targets more grows h =
      All-implies (λ w. (asks t w ≡ false) ⊎ Some (Is t w) targets)
        (λ w. (asks t w ≡ false) ⊎ Some (Is t w) more) ws
        (λ w k. elim k [ inl e ↦ inl e | inr x ↦ inr (grows w x) ]) h

  abbrev target_of : WorkloadType → Workload → Target
  target_of t w = annotated_target (type_name t) (pause_annotation t) w

  asking :
      (t : WorkloadType) (w : Workload) (ws : List Workload)
      → asks t w ≡ true
      → of_type t (w ∷ ws) ≡ target_of t w ∷ of_type t ws
  unfolding annotated_targets
  asking t w ws e = rw e refl

  not_asking :
      (t : WorkloadType) (w : Workload) (ws : List Workload)
      → asks t w ≡ false
      → of_type t (w ∷ ws) ≡ of_type t ws
  unfolding annotated_targets
  not_asking t w ws e = rw e refl

  target_of-Is : (t : WorkloadType) (w : Workload) → Is t w (target_of t w)
  unfolding annotated_target
  target_of-Is t w = (refl, refl, refl, refl, refl, refl)

  of_type-NoneOmitted : (t : WorkloadType) (ws : List Workload) → NoneOmitted t ws (of_type t ws)
  of_type-NoneOmitted t [] = tt
  of_type-NoneOmitted t (w ∷ ws) = elim (Bool-cases (asks t w)) [
    | inl e ↦ subst (NoneOmitted t (w ∷ ws)) (sym (asking t w ws e)) (
      inr (inl (target_of-Is t w)),
      NoneOmitted-more t ws (of_type t ws) (target_of t w ∷ of_type t ws) (λ x h. inr h)
          (of_type-NoneOmitted t ws),
    )
    | inr e ↦
        subst (NoneOmitted t (w ∷ ws)) (sym (not_asking t w ws e)) (inl e, of_type-NoneOmitted t ws)
  ]

  -- The targets of the three types
  abbrev merged : (WorkloadType → List Workload) → List Target
  merged ws =
      of_type deployment (ws deployment)
      ++ (of_type stateful_set (ws stateful_set) ++ of_type daemon_set (ws daemon_set))

  abbrev Asked : (WorkloadType → List Workload) → Target → Type 0
  Asked ws target = (t : WorkloadType) × AskedBy t (ws t) target

  merged-Asked : (ws : WorkloadType → List Workload) → All (Asked ws) (merged ws)
  merged-Asked ws =
      let each : (t : WorkloadType) → All (Asked ws) (of_type t (ws t)) = λ t.
        All-implies (AskedBy t (ws t)) (Asked ws) (of_type t (ws t)) (λ x h. (t, h))
          (of_type-AskedBy t (ws t)) in
      All-append (Asked ws) (of_type deployment (ws deployment)) _ (each deployment) (
        All-append (Asked ws) (of_type stateful_set (ws stateful_set)) _ (each stateful_set)
          (each daemon_set))

  merged-NoneOmitted :
      (ws : WorkloadType → List Workload) (t : WorkloadType) → NoneOmitted t (ws t) (merged ws)
  merged-NoneOmitted ws deployment =
      NoneOmitted-more deployment (ws deployment) (of_type deployment (ws deployment)) (merged ws)
        (λ w h. Some-append_left (Is deployment w) (of_type deployment (ws deployment)) _ h)
        (of_type-NoneOmitted deployment (ws deployment))
  merged-NoneOmitted ws stateful_set =
      NoneOmitted-more stateful_set (ws stateful_set) (of_type stateful_set (ws stateful_set))
        (merged ws)
        (λ w h.
          Some-append_right (Is stateful_set w) (of_type deployment (ws deployment)) _
            (Some-append_left (Is stateful_set w) (of_type stateful_set (ws stateful_set)) _ h))
        (of_type-NoneOmitted stateful_set (ws stateful_set))
  merged-NoneOmitted ws daemon_set =
      NoneOmitted-more daemon_set (ws daemon_set) (of_type daemon_set (ws daemon_set)) (merged ws)
        (λ w h.
          Some-append_right (Is daemon_set w) (of_type deployment (ws deployment)) _
            (Some-append_right (Is daemon_set w) (of_type stateful_set (ws stateful_set)) _ h))
        (of_type-NoneOmitted daemon_set (ws daemon_set))

  -- The workloads of each type as they are listed, and the targets among them.
  abbrev pub Annotated : (WorkloadType → Result (List Workload)) → List Target → Type 0
  Annotated answers targets =
      (ws : WorkloadType → List Workload) × ((t : WorkloadType) → answers t ≡ ok (ws t))
      × All (Asked ws) targets
      × ((t : WorkloadType) → NoneOmitted t (ws t) targets)

module _ (p : Platform) (kind name namespace : String) (m : StringMap) (s : State p.World) where
  listing_of :
      (ds ss es : List Workload)
      → listing p namespace s.world deployment ≡ ok ds
      → listing p namespace s.world stateful_set ≡ ok ss
      → listing p namespace s.world daemon_set ≡ ok es
      → (t : WorkloadType) → listing p namespace s.world t ≡ ok (by_type ds ss es t)
  listing_of ds ss es d e f deployment = d
  listing_of ds ss es d e f stateful_set = e
  listing_of ds ss es d e f daemon_set = f

  pub find_workloads-Annotated :
      OnOk
        (Annotated kind name m (listing p namespace s.world))
        (find_workloads_with_annotations p kind name namespace m s).0
  unfolding find_workloads_with_annotations
  find_workloads-Annotated = elim (Result-cases (listing p namespace s.world deployment)) [
    | inl (ds, d) ↦ elim (Result-cases (listing p namespace s.world stateful_set)) [
      | inl (ss, e) ↦ elim (Result-cases (listing p namespace s.world daemon_set)) [
        | inl (es, f) ↦
            let ws = by_type ds ss es in
            let annotated : Annotated kind name m (listing p namespace s.world)
                (merged kind name m ws) =
              (
                ws,
                listing_of ds ss es d e f,
                merged-Asked kind name m ws,
                merged-NoneOmitted kind name m ws,
              ) in
            rw (d, e, f) annotated
        | inr (x, f) ↦ rw (d, e, f) tt
      ]
      | inr (x, e) ↦ rw (d, e) tt
    ]
    | inr (x, d) ↦ rw d tt
  ]
