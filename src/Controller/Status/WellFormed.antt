-- ===== src/Controller/Status/WellFormed.antt =====
-- When a status is well formed, and that the updates of the worker keep it so.
use Prim.Native.Nat.{◌^◌}
use reloader_operator.Base.{
  ◌<◌, ◌==◌, ◌&&◌, String, Bool, Bool-cases, inl, inr, false, List, [], ◌∷◌, ◌≡◌, arith, All,
  StringMap, DistinctKeys, assign-DistinctKeys, delete-DistinctKeys, made-DistinctKeys,
}
use reloader_operator.Api.{Time, Duration, ReloaderConfigStatus, TargetWorkloadStatus}
use reloader_operator.Kube.{Result}
use reloader_operator.Util.Conditions.Laws.{Unique}
use reloader_operator.Util.Conditions.Known.{AreKnown}
use reloader_operator.Workload.Target.{Target}
use reloader_operator.Workload.Pause.{is_entry_of}
use reloader_operator.Controller.Status.{
  record_hash, config_status_after, target_entry_after, target_status_after,
}

-- Two entries are about one workload.
abbrev pub same_workload : TargetWorkloadStatus → TargetWorkloadStatus → Bool
same_workload a b = a.kind == b.kind && a.name == b.name && a.namespace == b.namespace

-- Each workload has one entry at most.
abbrev pub UniqueEntries : List TargetWorkloadStatus → Type 0
UniqueEntries [] = Unit
UniqueEntries (e ∷ es) = All (λ other. same_workload e other ≡ false) es × UniqueEntries es

abbrev pub CountsFit : List TargetWorkloadStatus → Type 0
CountsFit = All (λ e. e.reload_count < 2 ^ 64)

-- One condition of a type at most, of a type that the operator sets, one hash under a key and one entry for a workload at most, and counters
-- that are bit patterns of 64 bits.
pub record WellFormed (status : ReloaderConfigStatus) : Type 0 where
  pub conditions : Unique status.conditions
  pub known : AreKnown status.conditions
  pub hashes : DistinctKeys status.watched_resource_hashes
  pub entries : UniqueEntries status.target_status
  pub counts : CountsFit status.target_status
  pub count : status.reload_count < 2 ^ 64

record_hash-DistinctKeys :
    (key hash : String) (hashes : StringMap)
    → DistinctKeys hashes
    → DistinctKeys (record_hash key hash hashes)
unfolding record_hash
record_hash-DistinctKeys key hash hashes d = elim (Bool-cases (hash == "")) [
  | inl e ↦ rw e (delete-DistinctKeys key hashes d)
  | inr e ↦ rw e (assign-DistinctKeys key hash hashes d)
]

-- The update for a resource keeps a status well formed.
pub config_status_after-WellFormed :
    (now : Time) (namespace kind name hash : String) (status : ReloaderConfigStatus)
    → WellFormed status
    → WellFormed (config_status_after now namespace kind name hash status)
unfolding config_status_after
config_status_after-WellFormed now namespace kind name hash status w = record {
  conditions = w.conditions;
  known = w.known;
  entries = w.entries;
  counts = w.counts;
  hashes = record_hash-DistinctKeys _ hash _ (made-DistinctKeys _ w.hashes);
  count = omega arith;
}

module _ (now : Time) (duration : String → Result Duration) (target : Target)
    (error_msg : String) where
  -- The entry that is changed is still about its workload, and no other entry becomes one of it.
  same_workload-target_entry_after :
      (entry other : TargetWorkloadStatus)
      → same_workload (target_entry_after now duration target error_msg entry) other
        ≡ same_workload entry other
  unfolding target_entry_after
  same_workload-target_entry_after entry other = ground arith

  others-target_entry_after :
      (entry : TargetWorkloadStatus) (entries : List TargetWorkloadStatus)
      → All (λ other. same_workload entry other ≡ false) entries
      → All
          (λ other.
            same_workload (target_entry_after now duration target error_msg entry) other ≡ false)
          entries
  others-target_entry_after entry [] h = tt
  others-target_entry_after entry (e ∷ es) (h, hs) =
      (rw (same_workload-target_entry_after entry e) h, others-target_entry_after entry es hs)

  others-target_status_after :
      (entry : TargetWorkloadStatus) (entries : List TargetWorkloadStatus)
      → is_entry_of target entry ≡ false
      → All (λ other. same_workload entry other ≡ false) entries
      → All
          (λ other. same_workload entry other ≡ false)
          (target_status_after now duration target error_msg entries)
  unfolding target_status_after target_entry_after
  others-target_status_after entry [] n h = (ground arith, tt)
  others-target_status_after entry (e ∷ es) n (h, hs) = elim (Bool-cases (is_entry_of target e)) [
    | inl m ↦ rw m (ground arith, hs)
    | inr m ↦ rw m (h, others-target_status_after entry es n hs)
  ]

  target_status_after-UniqueEntries :
      (entries : List TargetWorkloadStatus)
      → UniqueEntries entries
      → UniqueEntries (target_status_after now duration target error_msg entries)
  unfolding target_status_after
  target_status_after-UniqueEntries [] u = (tt, tt)
  target_status_after-UniqueEntries (e ∷ es) (h, u) = elim (Bool-cases (is_entry_of target e)) [
    | inl m ↦ rw m (others-target_entry_after e es h, u)
    | inr m ↦ rw m (others-target_status_after e es m h, target_status_after-UniqueEntries es u)
  ]

  target_entry_after-count :
      (entry : TargetWorkloadStatus)
      → entry.reload_count < 2 ^ 64
      → (target_entry_after now duration target error_msg entry).reload_count < 2 ^ 64
  unfolding target_entry_after
  target_entry_after-count entry h = ground arith

  target_status_after-CountsFit :
      (entries : List TargetWorkloadStatus)
      → CountsFit entries
      → CountsFit (target_status_after now duration target error_msg entries)
  unfolding target_status_after
  target_status_after-CountsFit [] c = (target_entry_after-count _ (omega arith), tt)
  target_status_after-CountsFit (e ∷ es) (c, cs) = elim (Bool-cases (is_entry_of target e)) [
    | inl m ↦ rw m (target_entry_after-count e c, cs)
    | inr m ↦ rw m (c, target_status_after-CountsFit es cs)
  ]

  -- The update for a target keeps a status well formed.
  pub target_status_after-WellFormed :
      (status : ReloaderConfigStatus)
      → WellFormed status
      → WellFormed (record status {
        target_status = target_status_after now duration target error_msg status.target_status;
      })
  target_status_after-WellFormed status w = record {
    conditions = w.conditions;
    known = w.known;
    hashes = w.hashes;
    count = w.count;
    entries = target_status_after-UniqueEntries status.target_status w.entries;
    counts = target_status_after-CountsFit status.target_status w.counts;
  }
