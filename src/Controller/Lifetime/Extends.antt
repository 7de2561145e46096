-- ===== src/Controller/Lifetime/Extends.antt =====
-- What a write of a handler keeps and counts.
use Prim.Native.Nat.{◌^◌, ◌%◌}
use reloader_operator.Base.{
  ℕ, ◌+◌, ◌<◌, String, Bool-cases, Option-cases, inl, inr, ◌⊎◌, ◌≡◌, refl, subst, List, ◌∷◌, length,
  ap, ◌==◌, ◌∙◌, arith, sym,
}
use reloader_operator.Kube.{ok}
use reloader_operator.Api.{Time, ReloaderConfig, ReloaderConfigStatus}
use reloader_operator.Platform.{Platform, State, Call, updated_status}
use reloader_operator.Workload.Target.{Target}
use reloader_operator.Controller.WorkItem.{
  StatusUpdateWorkItem, status_update_type_reloader_config, status_update_type_target,
}
use reloader_operator.Controller.Status.{
  success_time, update_reloader_config_status_direct, update_target_status_direct,
  apply_status_update, process_status_update, target_status_after,
}
use reloader_operator.Controller.Status.Writes.{success_time-calls}
use reloader_operator.Controller.Status.WellFormed.{
  WellFormed, config_status_after-WellFormed, target_status_after-WellFormed,
}
use reloader_operator.Controller.ConfigReconcile.Outcome.{reconcile_reloader_config-written}
use reloader_operator.Controller.ConfigReconcile.Keeps.{
  reconciled_status-keeps, WellFormed-Closed, reconciled_status-NotesReloadsOf,
}
use reloader_operator.Controller.Status.Writes.{
  process_status_update-config_item, process_status_update-target_item,
}
use reloader_operator.Controller.Lifetime.{Writes, reconciles, records, notes}

module _ (p : Platform) where
  -- The calls of a handler that was given the config: none, or one that writes a status, which is well
  -- formed if the one of the config is.
  abbrev WritesWellFormed : ReloaderConfig → List Call → List Call → Type 0
  WritesWellFormed config before after =
      (after ≡ before)
      ⊎ ((config' : ReloaderConfig) × (after ≡ updated_status config' ∷ before)
          × (WellFormed config.status → WellFormed config'.status))

  update_config-WritesWellFormed :
      (config : ReloaderConfig) (namespace kind name hash : String) (s : State p.World)
      → WritesWellFormed config s.calls
          (update_reloader_config_status_direct p config namespace kind name hash s).1.calls
  unfolding update_reloader_config_status_direct
  update_config-WritesWellFormed config namespace kind name hash s =
      inr (_, refl, config_status_after-WellFormed _ namespace kind name hash config.status)

  update_target-WritesWellFormed :
      (config : ReloaderConfig) (target : Target) (error_msg : String) (s : State p.World)
      → WritesWellFormed config s.calls
          (update_target_status_direct p config target error_msg s).1.calls
  unfolding update_target_status_direct
  update_target-WritesWellFormed config target error_msg s =
      let now : Time = (success_time p error_msg s).0 in
      let config' : ReloaderConfig = record config {
        status = record (config.status) {
          target_status =
              target_status_after now p.parse_duration target error_msg config.status.target_status;
        };
      } in
      inr (
        config',
        ap (λ calls. updated_status config' ∷ calls) (success_time-calls p error_msg s),
        target_status_after-WellFormed now p.parse_duration target error_msg config.status,
      )

  apply-WritesWellFormed :
      (item : StatusUpdateWorkItem) (config : ReloaderConfig) (s : State p.World)
      → WritesWellFormed config s.calls (apply_status_update p item config s).1.calls
  unfolding apply_status_update
  apply-WritesWellFormed item config s =
      elim (Bool-cases (item.update_type == status_update_type_reloader_config)) [
        | inl e ↦ rw e (
            update_config-WritesWellFormed config item.resource_namespace item.resource_kind
              item.resource_name item.new_hash s)
        | inr e ↦ elim (Bool-cases (item.update_type == status_update_type_target)) [
          | inl e' ↦ elim (Option-cases item.target) [
            | inl t ↦ rw (e, e', t) (inl refl)
            | inr (target, t) ↦
                rw (e, e', t) (update_target-WritesWellFormed config target item.error_msg s)
          ]
          | inr e' ↦ rw (e, e') (inl refl)
        ]
      ]

  process-WritesWellFormed :
      (item : StatusUpdateWorkItem) (config : ReloaderConfig) (s : State p.World)
      → (p.get_config item.config_key s.world).0 ≡ ok config
      → WritesWellFormed config s.calls (process_status_update p item s).1.calls
  unfolding process_status_update
  process-WritesWellFormed item config s e = rw e (apply-WritesWellFormed item config _)

  -- The config that was written is the one of the call.
  same_write :
      (config config' : ReloaderConfig) (before : List Call)
      → updated_status config ∷ before ≡ updated_status config' ∷ before
      → config ≡ config'
  same_write config config' before e = cc

  not_longer : (c : Call) (before : List Call) → ¬ (before ≡ c ∷ before)
  not_longer c before e = omega (arith, ap length e)

  written-WellFormed :
      (config config' : ReloaderConfig) (before after : List Call)
      → WritesWellFormed config before after
      → after ≡ updated_status config' ∷ before
      → WellFormed config.status
      → WellFormed config'.status
  written-WellFormed config config' before after (inl same) e w =
      absurd (not_longer _ before (sym same ∙ e))
  written-WellFormed config config' before after (inr (written, same, keeps)) e w =
      subst (λ c. WellFormed c.status) (same_write written config' before (sym same ∙ e)) (keeps w)

  -- A write of a handler keeps the status well formed, and adds its items for resources to the count.
  abbrev pub Extends : ReloaderConfigStatus → ReloaderConfigStatus → ℕ → Type 0
  Extends old status k =
      (WellFormed old → WellFormed status)
      × (old.reload_count < 2 ^ 64 → status.reload_count ≡ (old.reload_count + k) % 2 ^ 64)

  count_of_write :
      (written config' : ReloaderConfig) (before after : List Call) (n : ℕ)
      → after ≡ updated_status written ∷ before
      → after ≡ updated_status config' ∷ before
      → written.status.reload_count ≡ n
      → config'.status.reload_count ≡ n
  count_of_write written config' before after n a b same =
      subst (λ (c : ReloaderConfig). c.status.reload_count ≡ n)
        (same_write written config' before (sym a ∙ b)) same

  pub Writes-Extends :
      {old status : ReloaderConfigStatus} {k : ℕ} → Writes p old status k → Extends old status k
  Writes-Extends (reconciles config config' s e) = (
    written-WellFormed config config' s.calls _
        (inr (
          _,
          reconcile_reloader_config-written p config s,
          reconciled_status-keeps p WellFormed WellFormed-Closed config s,
        ))
        e,
    λ small.
        let (count, time, entries) = reconciled_status-NotesReloadsOf p config s in
        let same =
          count_of_write _ config' s.calls _ config.status.reload_count
            (reconcile_reloader_config-written p config s) e count in
        omega (arith, same),
  )
  Writes-Extends (records namespace kind name hash known config config' s fetched e) =
      let (hashes, reads, (calls, answer)) =
        process_status_update-config_item p known config s namespace kind name hash fetched in
      (
        written-WellFormed config config' s.calls _ (process-WritesWellFormed _ config s fetched) e,
        λ small. count_of_write _ config' s.calls _ _ calls e refl,
      )
  Writes-Extends (notes target error_msg known config config' s fetched e) =
      let (entries, entry, own, noted, others, (calls, answer)) =
        process_status_update-target_item p known config s target error_msg fetched in
      (
        written-WellFormed config config' s.calls _ (process-WritesWellFormed _ config s fetched) e,
        λ small.
            let same = count_of_write _ config' s.calls _ config.status.reload_count calls e refl in
            omega (arith, same),
      )
