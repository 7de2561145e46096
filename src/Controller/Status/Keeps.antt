-- ===== src/Controller/Status/Keeps.antt =====
-- An attempt to write a status leaves the queue alone, and takes back no call.
use reloader_operator.Base.{
  ◌==◌, Bool-cases, Option-cases, String, List, ◌≡◌, ◌∙◌, refl, inl, inr, Some,
}
use reloader_operator.Kube.{Result-cases}
use reloader_operator.Api.{ReloaderConfig}
use reloader_operator.Platform.{Platform, State, M, Call}
use reloader_operator.Workload.Target.{Target}
use reloader_operator.Controller.WorkItem.{
  StatusUpdateWorkItem, status_update_type_reloader_config, status_update_type_target,
}
use reloader_operator.Controller.Status.{
  success_time, update_reloader_config_status_direct, update_target_status_direct,
  apply_status_update, process_status_update,
}
use reloader_operator.Controller.Status.WorkQueue.{WorkQueue}

module _ (p : Platform) (q : WorkQueue p) where
  -- Actions that leave the queue as it is.
  abbrev Keeps : {A : Type 0} → M p.World A → Type 0
  Keeps m =
      (s : State p.World)
      → (q.waiting (m s).1.world ≡ q.waiting s.world)
        × (q.current (m s).1.world ≡ q.current s.world)

  update_config-Keeps :
      (config : ReloaderConfig) (namespace kind name hash : String)
      → Keeps (update_reloader_config_status_direct p config namespace kind name hash)
  unfolding update_reloader_config_status_direct
  update_config-Keeps config namespace kind name hash s =
      let (a, b) = q.now s.world in
      let (c, d) = q.update_status _ (p.now s.world).1 in (c ∙ a, d ∙ b)

  success_time-Keeps : (error_msg : String) → Keeps (success_time p error_msg)
  success_time-Keeps error_msg s = elim (Bool-cases (error_msg == "")) [
    | inl e ↦ rw e (q.now s.world)
    | inr e ↦ rw e (refl, refl)
  ]

  update_target-Keeps :
      (config : ReloaderConfig) (target : Target) (error_msg : String)
      → Keeps (update_target_status_direct p config target error_msg)
  unfolding update_target_status_direct
  update_target-Keeps config target error_msg s =
      let (a, b) = success_time-Keeps error_msg s in
      let (c, d) = q.update_status _ (success_time p error_msg s).1.world in (c ∙ a, d ∙ b)

  apply-Keeps :
      (item : StatusUpdateWorkItem) (config : ReloaderConfig)
      → Keeps (apply_status_update p item config)
  unfolding apply_status_update
  apply-Keeps item config s =
      elim (Bool-cases (item.update_type == status_update_type_reloader_config)) [
        | inl e ↦ rw e (
            update_config-Keeps config item.resource_namespace item.resource_kind item.resource_name
              item.new_hash s)
        | inr e ↦ elim (Bool-cases (item.update_type == status_update_type_target)) [
          | inl e' ↦ elim (Option-cases item.target) [
            | inl t ↦ rw (e, e', t) (refl, refl)
            | inr (target, t) ↦ rw (e, e', t) (update_target-Keeps config target item.error_msg s)
          ]
          | inr e' ↦ rw (e, e') (refl, refl)
        ]
      ]

  pub process-Keeps : (item : StatusUpdateWorkItem) → Keeps (process_status_update p item)
  unfolding process_status_update
  process-Keeps item s =
      let (a, b) = q.get_config item.config_key s.world in
      elim (Result-cases (p.get_config item.config_key s.world).0) [
        | inl (config, e) ↦
            let s' : State p.World = record s {
              world = (p.get_config item.config_key s.world).1;
            } in
            let (c, d) = apply-Keeps item config s' in rw e (c ∙ a, d ∙ b)
        | inr (failure, e) ↦ rw e (a, b)
      ]

-- A call that was made.
abbrev pub Has : Call → List Call → Type 0
Has c = Some (λ d. d ≡ c)

module _ (p : Platform) where
  -- Actions that take back no call.
  abbrev Grows : {A : Type 0} → M p.World A → Type 0
  Grows m = (c : Call) (s : State p.World) → Has c s.calls → Has c (m s).1.calls

  success_time-Grows : (error_msg : String) → Grows (success_time p error_msg)
  success_time-Grows error_msg c s h = elim (Bool-cases (error_msg == "")) [
    | inl e ↦ rw e h
    | inr e ↦ rw e h
  ]

  update_config-Grows :
      (config : ReloaderConfig) (namespace kind name hash : String)
      → Grows (update_reloader_config_status_direct p config namespace kind name hash)
  unfolding update_reloader_config_status_direct
  update_config-Grows config namespace kind name hash c s h = inr h

  update_target-Grows :
      (config : ReloaderConfig) (target : Target) (error_msg : String)
      → Grows (update_target_status_direct p config target error_msg)
  unfolding update_target_status_direct
  update_target-Grows config target error_msg c s h = inr (success_time-Grows error_msg c s h)

  apply-Grows :
      (item : StatusUpdateWorkItem) (config : ReloaderConfig)
      → Grows (apply_status_update p item config)
  unfolding apply_status_update
  apply-Grows item config c s h =
      elim (Bool-cases (item.update_type == status_update_type_reloader_config)) [
        | inl e ↦ rw e (
            update_config-Grows config item.resource_namespace item.resource_kind item.resource_name
              item.new_hash c s h)
        | inr e ↦ elim (Bool-cases (item.update_type == status_update_type_target)) [
          | inl e' ↦ elim (Option-cases item.target) [
            | inl t ↦ rw (e, e', t) h
            | inr (target, t) ↦
                rw (e, e', t) (update_target-Grows config target item.error_msg c s h)
          ]
          | inr e' ↦ rw (e, e') h
        ]
      ]

  pub process-Grows : (item : StatusUpdateWorkItem) → Grows (process_status_update p item)
  unfolding process_status_update
  process-Grows item c s h = elim (Result-cases (p.get_config item.config_key s.world).0) [
    | inl (config, e) ↦ rw e (apply-Grows item config c _ h)
    | inr (failure, e) ↦ rw e h
  ]
