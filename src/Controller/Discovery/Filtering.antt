-- ===== src/Controller/Discovery/Filtering.antt =====
-- What the filter for targeted reloads keeps.
use reloader_operator.Base.{
  String, true, false, List, [], ◌∷◌, Option, none, some, ◌≡◌, ◌↔◌, refl, arith, inl, inr,
  Bool-cases,
}
use reloader_operator.Kube.{ok, Workload, WorkloadType}
use reloader_operator.Util.PodReferences.{check_pod_spec_references_resource}
use reloader_operator.Util.PodReferences.RefersTo.{RefersTo, check_pod_spec_iff}
use reloader_operator.Util.Workloads.{get_pod_spec, get_pod_template}
use reloader_operator.Util.Workloads.Answers.{IsRead, get_workload-IsRead, get_workload-cases}
use reloader_operator.Api.{ReloaderConfig}
use reloader_operator.Platform.{Platform, State}
use reloader_operator.Workload.Target.{Target}
use reloader_operator.Controller.Discovery.{
  workload_references_resource, is_kept_for, is_kept, filter_targets_for_targeted_reload,
  enables_targeted_reload,
}

-- A list with some of its items left out, the others in their order.
pub data IsSublist {A : Type 0} : List A → List A → Type 0 where
  empty : IsSublist [] []
  keep : {x : A} {xs ys : List A} → IsSublist xs ys → IsSublist (x ∷ xs) (x ∷ ys)
  drop : {x : A} {xs ys : List A} → IsSublist xs ys → IsSublist xs (x ∷ ys)

-- The target asks for a reference, and its config is in targeted mode.
abbrev pub Asks : Target → Option ReloaderConfig → Type 0
Asks target none = ⊥
Asks target (some config) =
    (enables_targeted_reload config ≡ true) × (target.require_reference ≡ true)

module _ (p : Platform) (kind name : String) where
  -- The client has the workload of the target, and its pod spec does not refer to the resource.
  abbrev pub LacksReference : Target → State p.World → Type 0
  LacksReference target s =
      (t : WorkloadType) × (w : Workload) × IsRead p target.kind target.name target.namespace s t w
      × (RefersTo kind name w.template.spec → ⊥)

  references-LacksReference :
      (target : Target) (s : State p.World)
      → ((workload_references_resource p kind name target s).0 ≡ ok false) ↔ LacksReference target s
  unfolding workload_references_resource get_pod_spec get_pod_template
  references-LacksReference target s = (
    λ h. elim (get_workload-cases p target.kind target.name target.namespace s) [
      | inl (t, w, read, found) ↦
          let checked = check_pod_spec_iff kind name w.template.spec in
          let unreferenced = rw found at h in
          (t, w, read, λ refers. absurd (ground (arith, unreferenced, checked.1 refers)))
      | inr (e, failed, none_read) ↦ absurd (ground (arith, failed, h))
    ],
    λ (t, w, read, lacks).
        let checked = check_pod_spec_iff kind name w.template.spec in
        let unreferenced : check_pod_spec_references_resource kind name w.template.spec ≡ false =
          ground (arith, checked.0, lacks) in
        rw (get_workload-IsRead p target.kind target.name target.namespace s t w read, unreferenced)
          refl,
  )

  is_kept_for-drops_iff :
      (target : Target) (o : Option ReloaderConfig) (s : State p.World)
      → ((is_kept_for p kind name target o s).0 ≡ false) ↔ (Asks target o × LacksReference target s)
  unfolding is_kept_for
  is_kept_for-drops_iff target none s = ground arith
  is_kept_for-drops_iff target (some config) s = ground (arith, references-LacksReference target s)

  -- A target is dropped exactly when it asks for a reference, its config is in targeted mode, and the
  -- client has its workload, whose pod spec does not refer to the resource. An annotation-based target stays, and so
  -- does one whose workload cannot be read.
  pub is_kept-drops_iff :
      (target : Target) (s : State p.World)
      → ((is_kept p kind name target s).0 ≡ false)
        ↔ (Asks target target.config × LacksReference target s)
  unfolding is_kept
  is_kept-drops_iff target s = is_kept_for-drops_iff target target.config s

  -- The filter keeps the order of the targets, and adds and doubles none.
  pub filter-IsSublist :
      (targets : List Target) (s : State p.World)
      → IsSublist (filter_targets_for_targeted_reload p kind name targets s).0 targets
  unfolding filter_targets_for_targeted_reload
  filter-IsSublist [] s = empty
  filter-IsSublist (t ∷ ts) s = elim (Bool-cases (is_kept p kind name t s).0) [
    | inl e ↦ rw e (keep (filter-IsSublist ts (is_kept p kind name t s).1))
    | inr e ↦ rw e (drop (filter-IsSublist ts (is_kept p kind name t s).1))
  ]
