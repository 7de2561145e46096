-- ===== src/Controller/Status.antt =====
-- internal/controller/reconciler_status.go: the worker that writes statuses.
pub mod Stored
pub mod Announced
pub mod Recorded
pub mod Holds
pub mod Store
pub mod Writes
pub mod Rounds
pub mod Keeps
pub mod WellFormed
pub mod WorkQueue
pub mod Drained
pub mod Worker
pub mod Entries
use Prim.Native.Nat.{◌%◌, ◌^◌}
use reloader_operator.Base.{
  zero, suc, ℕ, ◌+◌, String, Bool, true, false, Option, none, some, List, [], ◌∷◌, ◌==◌, ltb,
  if◌then◌else◌, assign, delete, StringMap,
}
use reloader_operator.Kube.{Result, ok, err, errorf, Failure}
use reloader_operator.Api.{
  Time, Duration, ReloaderConfig, ReloaderConfigStatus, TargetWorkloadStatus, add_duration,
}
use reloader_operator.Platform.{
  Platform, M, pure, read, write, signal, ◌>>=◌, ◌>>◌, updated_status, requeued, forgot, finished,
}
use reloader_operator.Util.Keys.{make_resource_key}
use reloader_operator.Workload.Target.{Target}
use reloader_operator.Workload.Pause.{is_entry_of}
use reloader_operator.Controller.WorkItem.{
  StatusUpdateWorkItem, status_update_type_reloader_config, status_update_type_target,
}

-- `++` on an `int64`, as a bit pattern
abbrev pub increment : ℕ → ℕ
increment n = (n + 1) % 2 ^ 64

-- The change to the table of hashes; the empty hash takes the entry out.
unfoldable pub record_hash : String → String → StringMap → StringMap
record_hash hash_key new_hash hashes =
    if new_hash == "" then delete hash_key hashes else assign hash_key new_hash hashes

-- The status of the config, with the table of hashes made if it was nil.
unfoldable pub config_status_after :
    Time → String → String → String → String → ReloaderConfigStatus → ReloaderConfigStatus
config_status_after now resource_namespace resource_kind resource_name new_hash status =
    record status {
      watched_resource_hashes =
          record_hash (make_resource_key resource_namespace resource_kind resource_name) new_hash
            (elim status.watched_resource_hashes [ none ↦ some [] | some m ↦ some m ]);
      reload_count = increment status.reload_count;
      last_reload_time = some now;
    }

-- `PausedUntil` after a reload at `now`
abbrev pub paused_until_after : Time → Result Duration → Option Time → Option Time
paused_until_after now (ok duration) until = some (add_duration now duration)
paused_until_after now (err e) until = until

module _ (now : Time) (duration : String → Result Duration) (target : Target)
    (error_msg : String) where
  -- The change to the entry of the target.
  unfoldable pub target_entry_after : TargetWorkloadStatus → TargetWorkloadStatus
  target_entry_after status =
      if error_msg == ""
      then record status {
        last_error = "";
        reload_count = increment status.reload_count;
        last_reload_time = some now;
        paused_until =
            (if target.pause_period == ""
              then status.paused_until
              else paused_until_after now (duration target.pause_period) status.paused_until);
      }
      else record status { last_error = error_msg }

  -- The first entry of the target is changed; a new one is put at the end if there is none.
  unfoldable pub target_status_after : List TargetWorkloadStatus → List TargetWorkloadStatus
  target_status_after [] =
      target_entry_after (record {
        kind = target.kind;
        name = target.name;
        namespace = target.namespace;
        last_reload_time = none;
        reload_count = 0;
        paused_until = none;
        last_error = "";
      })
      ∷ []
  target_status_after (status ∷ target_status) =
      if is_entry_of target status
      then target_entry_after status ∷ target_status
      else status ∷ target_status_after target_status

module _ (p : Platform) where
  unfoldable pub update_reloader_config_status_direct :
      ReloaderConfig → String → String → String → String → M p.World Failure
  update_reloader_config_status_direct config resource_namespace resource_kind resource_name
        new_hash =
      do
        now ← read p.now
        let config' = record config {
          status =
              config_status_after now resource_namespace resource_kind resource_name new_hash
                config.status;
        }
        write (updated_status config') (p.update_status config')

  -- The clock is read only for a success.
  abbrev pub success_time : String → M p.World Time
  success_time error_msg = if error_msg == "" then read p.now else pure 0

  unfoldable pub update_target_status_direct : ReloaderConfig → Target → String → M p.World Failure
  update_target_status_direct config target error_msg = do
    now ← success_time error_msg
    let config' = record config {
      status = record (config.status) {
        target_status =
            target_status_after now p.parse_duration target error_msg config.status.target_status;
      };
    }
    write (updated_status config') (p.update_status config')

  -- The update for a config that was fetched. A target item holds its target: a nil one would be
  -- dereferenced, which panics.
  unfoldable pub apply_status_update : StatusUpdateWorkItem → ReloaderConfig → M p.World Failure
  apply_status_update item config =
      if item.update_type == status_update_type_reloader_config
      then update_reloader_config_status_direct config item.resource_namespace item.resource_kind
          item.resource_name item.new_hash
      else if item.update_type == status_update_type_target
      then elim item.target [
        | none ↦ pure (some (errorf ("nil target" ∷ [])))
        | some target ↦ update_target_status_direct config target item.error_msg
      ]
      else pure (some (errorf ("unknown status update type: " ∷ item.update_type ∷ [])))

  -- What follows the fetch; an item whose config is gone is done.
  abbrev pub after_fetch : StatusUpdateWorkItem → Result ReloaderConfig → M p.World Failure
  after_fetch item (ok config) = apply_status_update item config
  after_fetch item (err e) = pure (if e.is_not_found then none else some e)

  unfoldable pub process_status_update : StatusUpdateWorkItem → M p.World Failure
  process_status_update item = do
    config ← read (p.get_config item.config_key)
    after_fetch item config

  abbrev forget : StatusUpdateWorkItem → M p.World (Unit {0})
  forget item = signal (forgot item) (p.queue_forget item)

  -- What follows a failure: five more attempts at most.
  unfoldable pub retry_or_forget : StatusUpdateWorkItem → ℕ → M p.World (Unit {0})
  retry_or_forget item requeues =
      if ltb requeues 5 then signal (requeued item) (p.queue_add_rate_limited item) else forget item

  -- What follows an attempt; the deferred `Done` comes last.
  unfoldable pub settle : StatusUpdateWorkItem → Failure → M p.World (Unit {0})
  settle item none = do forget item; signal (finished item) (p.queue_done item)
  settle item (some e) = do
    requeues ← read (p.queue_num_requeues item)
    retry_or_forget item requeues
    signal (finished item) (p.queue_done item)

  -- What follows `Get`, which returns no item once the queue is shut down.
  abbrev pub after_get : Option StatusUpdateWorkItem → M p.World Bool
  after_get none = pure false
  after_get (some item) = do failure ← process_status_update item; settle item failure; pure true

  unfoldable pub process_next_status_update : M p.World Bool
  process_next_status_update = do next ← read p.queue_get; after_get next

  -- The condition of the worker's loop
  abbrev pub while_true : M p.World Bool → Bool → M p.World Bool
  while_true rest true = rest
  while_true rest false = pure false

  -- The worker's loop, for a bounded number of rounds. The result tells whether it still runs.
  unfoldable pub start_status_update_worker : ℕ → M p.World Bool
  start_status_update_worker zero = pure true
  start_status_update_worker (suc rounds) = do
    more ← process_next_status_update
    while_true (start_status_update_worker rounds) more
