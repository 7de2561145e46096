-- ===== src/Controller/Reload/Cooldown.antt =====
-- From a reload over the status queue to the next round: the pause period holds.
use reloader_operator.Base.{
  String, true, false, Option, some, List, [], ◌∷◌, ◌≡◌, ◌≢◌, ◌<◌, ◌∙◌, ap, sym, refl, arith,
}
use reloader_operator.Kube.{Result, ok, Failure}
use reloader_operator.Api.{Time, Duration, ReloaderConfig, TargetWorkloadStatus, add_duration}
use reloader_operator.Platform.{Platform, State, M, Call, updated_status, latest}
use reloader_operator.Workload.Target.{Target}
use reloader_operator.Workload.Pause.{is_paused}
use reloader_operator.Controller.Reconciler.{Reconciler}
use reloader_operator.Controller.StatusQueue.{config_key_of, target_item}
use reloader_operator.Controller.Status.{
  target_entry_after, target_status_after, update_target_status_direct, apply_status_update,
  process_status_update,
}
use reloader_operator.Controller.Status.Stored.{
  whole_seconds, kept_config, is_paused-target_status_after,
}
use reloader_operator.Controller.Reload.{refresh, reload_round}
use reloader_operator.Controller.Reload.Rounds.{reload_round-paused}

ok_true-ne-ok_false : ok true ≢ ok false
ok_true-ne-ok_false h = cc

abbrev status_written : ReloaderConfig → Option Call → ReloaderConfig
status_written default (some (updated_status config)) = config
status_written default _ = default

updated_status-injective :
    (a b : ReloaderConfig) → some (updated_status a) ≡ some (updated_status b) → a ≡ b
updated_status-injective a b h = ap (status_written a) h

-- The target with another copy of its config.
abbrev pub with_config : Target → ReloaderConfig → Target
with_config target config = record target { config = some config }

-- The status does not depend on the copy of the config.
target_status_after-with_config :
    (now : Time) (duration : String → Result Duration) (target : Target) (config : ReloaderConfig)
    (target_status : List TargetWorkloadStatus)
    → target_status_after now duration (with_config target config) "" target_status
      ≡ target_status_after now duration target "" target_status
unfolding target_status_after target_entry_after
target_status_after-with_config now duration target config [] = refl
target_status_after-with_config now duration target config (status ∷ rest) =
    ground (arith, target_status_after-with_config now duration target config rest)

module _ (p : Platform) (target : Target) (config fetched : ReloaderConfig)
    (s : State p.World) where
  -- The state after the fetch of the worker, and the instant that it writes.
  abbrev pub fetched_at : State p.World
  fetched_at = record s { world = (p.get_config (config_key_of config) s.world).1 }

  abbrev pub reloaded_at : Time
  reloaded_at = (p.now fetched_at.world).0

  -- The config that the worker writes.
  abbrev pub noted : ReloaderConfig
  noted = record fetched {
    status = record (fetched.status) {
      target_status =
          target_status_after reloaded_at p.parse_duration target "" fetched.status.target_status;
    };
  }

  pub process_status_update-noted :
      (p.get_config (config_key_of config) s.world).0 ≡ ok fetched
      → (process_status_update p (target_item config target "") s).1.calls
        ≡ updated_status noted ∷ s.calls
  unfolding process_status_update apply_status_update update_target_status_direct
  process_status_update-noted h = rw h refl

  noted-with_config :
      (copy : ReloaderConfig)
      → copy ≡ kept_config noted
      → (with_config target copy).config
        ≡ some (
            kept_config (record fetched {
              status = record (fetched.status) {
                target_status =
                    target_status_after reloaded_at p.parse_duration
                      (with_config target copy)
                      ""
                      fetched.status.target_status;
              };
            }))
  noted-with_config copy e = ap some e ∙ (λ i. some (
      kept_config (record fetched {
        status = record (fetched.status) {
          target_status =
              sym
                (target_status_after-with_config reloaded_at p.parse_duration target copy
                  fetched.status.target_status)
                i;
        };
      })))

module _ (p : Platform) (r : Reconciler) (kind name : String) (trigger : Target → M p.World Failure)
    (target : Target) (config stale fetched written : ReloaderConfig) (d : Duration)
    (s s' : State p.World) where
  -- The state of the next round once it has fetched the config.
  abbrev pub read_at : State p.World
  read_at = record s' { world = (p.get_config (config_key_of stale) s'.world).1 }

  fresh :
      (p.get_config (config_key_of stale) s'.world).0 ≡ ok (kept_config written)
      → refresh p (with_config target stale) s'
        ≡ (with_config target (kept_config written), read_at)
  unfolding refresh
  fresh h = rw h refl

  -- The pause period holds across the status queue. Say that a target was reloaded and the worker
  -- handles its item for the success: it fetches the config, and writes it. If a later round for the
  -- target, with whatever copy of the config, reads what the worker wrote, which the server keeps with
  -- its instants in whole seconds, and its clock is before the instant that the worker read plus the
  -- pause period, rounded down to a whole second, then the round triggers nothing and leaves no
  -- mark, and is no success.
  pub reload_round-rests :
      (p.get_config (config_key_of config) s.world).0 ≡ ok fetched
      → latest (process_status_update p (target_item config target "") s).1.calls
        ≡ some (updated_status written)
      → (p.get_config (config_key_of stale) s'.world).0 ≡ ok (kept_config written)
      → target.pause_period ≢ ""
      → p.parse_duration target.pause_period ≡ ok d
      → (p.now read_at.world).0
        < whole_seconds (add_duration (reloaded_at p target config fetched s) d)
      → ((reload_round p r kind name trigger (with_config target stale) s').1.calls ≡ s'.calls)
        × ((reload_round p r kind name trigger (with_config target stale) s').0 ≡ false)
  reload_round-rests fetch write read named parsed early =
      let same : written ≡ noted p target config fetched s =
        updated_status-injective written (noted p target config fetched s)
          (sym write ∙ ap latest (process_status_update-noted p target config fetched s fetch)) in
      let paused : (is_paused p (with_config target (kept_config written)) read_at).0 ≡ ok true =
        is_paused-target_status_after p (with_config target (kept_config written))
          (reloaded_at p target config fetched s) d fetched read_at
          (noted-with_config p target config fetched s (kept_config written) (ap kept_config same))
          named parsed early in
      reload_round-paused p r kind name trigger (with_config target stale) s' (λ unpaused.
        ok_true-ne-ok_false (
          sym paused
          ∙ (λ i. (is_paused p (sym (fresh read) i).0 (sym (fresh read) i).1).0)
          ∙ unpaused))
