-- ===== src/Controller/Status/Entries.antt =====
-- What a status update changes in a status.
use reloader_operator.Base.{
  ◌⊎◌, String, true, Bool-cases, inl, inr, lookup-made, Option, none, some, List, [], ◌∷◌, ◌≡◌, ◌≢◌,
  refl, arith, eq_iff, ◌==◌, lookup, lookup-assign, lookup-delete, if◌then◌else◌, StringMap,
}
use reloader_operator.Api.{Time, Duration, ReloaderConfigStatus, TargetWorkloadStatus}
use reloader_operator.Kube.{Result}
use reloader_operator.Util.Keys.{make_resource_key}
use reloader_operator.Workload.Target.{Target}
use reloader_operator.Workload.Pause.{is_entry_of}
use reloader_operator.Controller.Status.{
  record_hash, config_status_after, target_entry_after, target_status_after,
}

-- The entry of a target in a list: the first one with its kind, name and namespace.
unfoldable pub first_entry : Target → List TargetWorkloadStatus → Option TargetWorkloadStatus
first_entry target [] = none
first_entry target (status ∷ rest) =
    if is_entry_of target status then some status else first_entry target rest

-- An entry of a target that was never reloaded.
abbrev pub new_entry : Target → TargetWorkloadStatus
new_entry target = record {
  kind = target.kind;
  name = target.name;
  namespace = target.namespace;
  last_reload_time = none;
  reload_count = 0;
  paused_until = none;
  last_error = "";
}

abbrev pub or_new : Target → Option TargetWorkloadStatus → TargetWorkloadStatus
or_new target none = new_entry target
or_new target (some status) = status

module _ (now : Time) (duration : String → Result Duration) (target : Target)
    (error_msg : String) where
  -- The entry is still one of the same targets.
  same_entry :
      (other : Target) (status : TargetWorkloadStatus)
      → is_entry_of other (target_entry_after now duration target error_msg status)
        ≡ is_entry_of other status
  unfolding target_entry_after
  same_entry other status = ground arith

  pub own_entry : is_entry_of target (new_entry target) ≡ true
  own_entry = ground (
    arith,
    eq_iff target.kind target.kind,
    eq_iff target.name target.name,
    eq_iff target.namespace target.namespace,
  )

  -- After a status update for a target, its entry is the old one (a new one if it had none), changed.
  pub first_entry-target_status_after :
      (target_status : List TargetWorkloadStatus)
      → first_entry target (target_status_after now duration target error_msg target_status)
        ≡ some (
            target_entry_after now duration target error_msg
              (or_new target (first_entry target target_status)))
  unfolding first_entry target_status_after
  first_entry-target_status_after [] = rw (same_entry target (new_entry target), own_entry) refl
  first_entry-target_status_after (status ∷ rest) =
      ground (arith, same_entry target status, first_entry-target_status_after rest)

  -- The entries of other targets are kept.
  pub first_entry-target_status_after_other :
      (other : Target) (target_status : List TargetWorkloadStatus)
      → (other.kind ≢ target.kind)
        ⊎ (other.name ≢ target.name)
        ⊎ (other.namespace ≢ target.namespace)
      → first_entry other (target_status_after now duration target error_msg target_status)
        ≡ first_entry other target_status
  unfolding first_entry target_status_after
  first_entry-target_status_after_other other [] h = rw (same_entry other (new_entry target)) (
      ground (
        arith,
        eq_iff target.kind other.kind,
        eq_iff target.name other.name,
        eq_iff target.namespace other.namespace,
      ))
  first_entry-target_status_after_other other (status ∷ rest) h = ground (
    arith,
    same_entry other status,
    eq_iff status.kind target.kind,
    eq_iff status.name target.name,
    eq_iff status.namespace target.namespace,
    eq_iff status.kind other.kind,
    eq_iff status.name other.name,
    eq_iff status.namespace other.namespace,
    first_entry-target_status_after_other other rest h,
  )

lookup-record_hash :
    (k hash key : String) (hashes : StringMap)
    → lookup key (record_hash k hash hashes)
      ≡ (if k == key then (if hash == "" then none else some hash) else lookup key hashes)
unfolding record_hash
lookup-record_hash k hash key hashes = elim (Bool-cases (hash == "")) [
  | inl e ↦ rw (e, lookup-delete k key hashes) refl
  | inr e ↦ rw (e, lookup-assign k key hash hashes) refl
]

module _ (now : Time) (namespace kind name hash : String) (status : ReloaderConfigStatus) where
  abbrev recorded : StringMap
  recorded = (config_status_after now namespace kind name hash status).watched_resource_hashes

  -- After the status update for a resource, its key reads the new hash, or nothing if that is empty,
  -- and each other key reads as before.
  pub lookup-config_status_after :
      (key : String)
      → lookup key recorded ≡ (
          if make_resource_key namespace kind name == key
          then (if hash == "" then none else some hash)
          else lookup key status.watched_resource_hashes)
  unfolding config_status_after
  lookup-config_status_after key =
      rw
        (
          lookup-record_hash (make_resource_key namespace kind name) hash key _,
          lookup-made key status.watched_resource_hashes,
        )
        refl
