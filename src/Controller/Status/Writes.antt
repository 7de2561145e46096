-- ===== src/Controller/Status/Writes.antt =====
-- What the worker writes for each type of item.
use Prim.Native.Nat.{◌%◌, ◌^◌}
use reloader_operator.Base.{
  ◌+◌, Bool-cases, inl, inr, ◌⊎◌, String, Option, eq_iff, arith, none, some, ◌∷◌, List, ◌≡◌, ◌≢◌,
  refl, ap, lookup, if◌then◌else◌, ◌==◌, StringMap,
}
use reloader_operator.Kube.{GoError, ok, err, Result-cases}
use reloader_operator.Api.{Time, Duration, ReloaderConfig, TargetWorkloadStatus, add_duration}
use reloader_operator.Platform.{Platform, State, updated_status}
use reloader_operator.Util.Keys.{make_resource_key}
use reloader_operator.Workload.Target.{Target}
use reloader_operator.Controller.StatusQueue.{config_key_of, config_item, target_item}
use reloader_operator.Controller.Status.{
  success_time, paused_until_after, config_status_after, target_entry_after, target_status_after,
  update_reloader_config_status_direct, update_target_status_direct, apply_status_update,
  process_status_update,
}
use reloader_operator.Controller.Status.Entries.{
  first_entry, or_new, first_entry-target_status_after, first_entry-target_status_after_other,
  lookup-config_status_after,
}

pub success_time-calls :
    (p : Platform) (error_msg : String) (s : State p.World)
    → (success_time p error_msg s).1.calls ≡ s.calls
success_time-calls p error_msg s = elim (Bool-cases (error_msg == "")) [
  | inl e ↦ rw e refl
  | inr e ↦ rw e refl
]

module _ (p : Platform) (now : Time) (target : Target) (error_msg : String) where
  -- The pause begins with a reload: it ends a pause period after it, if the target states one that can
  -- be parsed; otherwise the old end is kept.
  abbrev pub PausesFrom : Option Time → Option Time → Type 0
  PausesFrom old new =
      ((target.pause_period ≡ "") × (new ≡ old))
      ⊎ ((target.pause_period ≢ "")
          × (d : Duration) × (p.parse_duration target.pause_period ≡ ok d)
          × (new ≡ some (add_duration now d)))
      ⊎ ((target.pause_period ≢ "")
          × (e : GoError) × (p.parse_duration target.pause_period ≡ err e)
          × (new ≡ old))

  -- The new entry has noted a reload: no error, one more in the count, modulo 2^64, the time and the
  -- pause. Or it has noted the error, and nothing else has changed.
  abbrev pub Notes : TargetWorkloadStatus → TargetWorkloadStatus → Type 0
  Notes old new =
      ((error_msg ≡ "")
        × (until : Option Time) × PausesFrom old.paused_until until
        × (new ≡ record old {
          last_error = "";
          reload_count = (old.reload_count + 1) % 2 ^ 64;
          last_reload_time = some now;
          paused_until = until;
        }))
      ⊎ ((error_msg ≢ "") × (new ≡ record old { last_error = error_msg }))

  pauses :
      (old : Option Time)
      → PausesFrom old (
          if target.pause_period == ""
          then old
          else paused_until_after now (p.parse_duration target.pause_period) old)
  pauses old = elim (Bool-cases (target.pause_period == "")) [
    | inl e ↦ rw e (inl ((eq_iff target.pause_period "").0 e, refl))
    | inr e ↦
        let named : target.pause_period ≢ "" = λ h. ground (arith, eq_iff target.pause_period "") in
        elim (Result-cases (p.parse_duration target.pause_period)) [
          | inl (d, q) ↦ rw (e, q) (inr (inl (named, d, refl, refl)))
          | inr (x, q) ↦ rw (e, q) (inr (inr (named, x, refl, refl)))
        ]
  ]

  target_entry_after-Notes :
      (old : TargetWorkloadStatus)
      → Notes old (target_entry_after now p.parse_duration target error_msg old)
  unfolding target_entry_after
  target_entry_after-Notes old = elim (Bool-cases (error_msg == "")) [
    | inl e ↦ rw e (inl ((eq_iff error_msg "").0 e, _, pauses old.paused_until, refl))
    | inr e ↦ rw e (inr (λ h. ground (arith, eq_iff error_msg ""), refl))
  ]

module _ (p : Platform) (known config : ReloaderConfig) (s : State p.World) where
  -- The state in which the config was fetched.
  abbrev pub fetched : State p.World
  fetched = record s { world = (p.get_config (config_key_of known) s.world).1 }

  -- An item for a resource makes one call, which writes the config as it is read now: in its table of
  -- hashes the key of the resource reads the new hash, or nothing if that is empty, and each other key
  -- reads as before; the count of reloads grows by one, modulo 2^64; the last reload is now; and
  -- nothing else changes. The answer of the write is the result.
  pub process_status_update-config_item :
      (namespace kind name hash : String)
      → (p.get_config (config_key_of known) s.world).0 ≡ ok config
      → (hashes : StringMap) × ((key : String)
          → lookup key hashes ≡ (
              if make_resource_key namespace kind name == key
              then (if hash == "" then none else some hash)
              else lookup key config.status.watched_resource_hashes))
        × (let config' : ReloaderConfig = record config {
          status = record (config.status) {
            watched_resource_hashes = hashes;
            reload_count = (config.status.reload_count + 1) % 2 ^ 64;
            last_reload_time = some (p.now fetched.world).0;
          };
        } in
            ((process_status_update p (config_item namespace kind name hash known) s).1.calls
              ≡ updated_status config' ∷ s.calls)
            × ((process_status_update p (config_item namespace kind name hash known) s).0
                ≡ (p.update_status config' (p.now fetched.world).1).0))
  unfolding process_status_update apply_status_update update_reloader_config_status_direct
      config_status_after
  process_status_update-config_item namespace kind name hash e =
      let now : Time = (p.now fetched.world).0 in
      (
        (config_status_after now namespace kind name hash config.status).watched_resource_hashes,
        λ key. lookup-config_status_after now namespace kind name hash config.status key,
        (rw e refl, rw e refl),
      )

  -- An error notes no time, so it does not matter that the clock is not read for it.
  noted :
      (target : Target) (error_msg : String) (old : TargetWorkloadStatus)
      → Notes p (p.now fetched.world).0 target error_msg old (
          target_entry_after
            (success_time p error_msg fetched).0
            p.parse_duration
            target
            error_msg
            old)
  unfolding target_entry_after
  noted target error_msg old = elim (Bool-cases (error_msg == "")) [
    | inl e ↦
        let notes = target_entry_after-Notes p (p.now fetched.world).0 target error_msg old in
        rw e (rw e at notes)
    | inr e ↦ rw e (inr (λ h. ground (arith, eq_iff error_msg ""), refl))
  ]

  -- An item for a target makes one call, which writes the config as it is read now: the entry of the
  -- target, a new one if it had none, has noted the error, or where there is none the reload: it has no
  -- error then, counts one more, and holds the time and the end of the pause. The entries of other
  -- targets read as before, and nothing else changes. The answer of the write is the result.
  pub process_status_update-target_item :
      (target : Target) (error_msg : String)
      → (p.get_config (config_key_of known) s.world).0 ≡ ok config
      → (entries : List TargetWorkloadStatus) × (entry : TargetWorkloadStatus) × (first_entry target
            entries
          ≡ some entry)
        × Notes p
            (p.now fetched.world).0
            target
            error_msg
            (or_new target (first_entry target config.status.target_status))
            entry
        × ((other : Target)
            → (other.kind ≢ target.kind)
              ⊎ (other.name ≢ target.name)
              ⊎ (other.namespace ≢ target.namespace)
            → first_entry other entries ≡ first_entry other config.status.target_status)
        × (let config' : ReloaderConfig = record config {
          status = record (config.status) { target_status = entries };
        } in
            ((process_status_update p (target_item known target error_msg) s).1.calls
              ≡ updated_status config' ∷ s.calls)
            × ((process_status_update p (target_item known target error_msg) s).0
                ≡ (p.update_status config' (success_time p error_msg fetched).1.world).0))
  unfolding process_status_update apply_status_update update_target_status_direct
  process_status_update-target_item target error_msg e =
      let now : Time = (success_time p error_msg fetched).0 in
      let old : List TargetWorkloadStatus = config.status.target_status in
      let entries : List TargetWorkloadStatus =
        target_status_after now p.parse_duration target error_msg old in
      let config' : ReloaderConfig = record config {
        status = record (config.status) { target_status = entries };
      } in
      (
        entries,
        target_entry_after now p.parse_duration target error_msg
            (or_new target (first_entry target old)),
        first_entry-target_status_after now p.parse_duration target error_msg old,
        noted target error_msg (or_new target (first_entry target old)),
        λ other h.
            first_entry-target_status_after_other now p.parse_duration target error_msg other old h,
        (
          rw e (
              ap (λ calls. updated_status config' ∷ calls)
                (success_time-calls p error_msg fetched)),
          rw e refl,
        ),
      )
