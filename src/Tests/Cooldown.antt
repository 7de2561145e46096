-- ===== src/Tests/Cooldown.antt =====
-- A reload, the worker, and the next round, on a cluster that keeps what is written.
use reloader_operator.Base.{
  assign, ℕ, ◌+◌, ◌<◌, false, none, some, [], ◌≡◌, ◌≢◌, refl, arith, eq_iff,
}
use reloader_operator.Kube.{Workload, Object, workload, deployment, ok, Failure}
use reloader_operator.Api.{ReloaderConfig, pos, add_duration}
use reloader_operator.Platform.{Platform, State, updated_status, updated, latest}
use reloader_operator.Workload.Target.{Target}
use reloader_operator.Controller.StatusQueue.{target_item}
use reloader_operator.Controller.Status.{process_status_update}
use reloader_operator.Controller.Reload.{reload_round}
use reloader_operator.Controller.Status.Stored.{whole_seconds, kept_config}
use reloader_operator.Controller.Reload.Cooldown.{
  with_config, reloaded_at, noted, read_at, process_status_update-noted, reload_round-rests,
}
use reloader_operator.Util.Workloads.{get_workload}
use reloader_operator.Workload.Updater.{set_last_reload_annotation}
use reloader_operator.Workload.Pause.{is_after, is_paused}
use reloader_operator.Workload.Pause.Stamped.{checked_at, is_paused-stamped}
use reloader_operator.Tests.Sample.{api, bare, reconciler, config, target}

-- The world is the clock and the config. The server keeps instants in whole seconds.
record Memory : Type 0 where
  clock : ℕ
  stored : ReloaderConfig

abbrev remembering : Platform
remembering = record (bare Memory) {
  parse_duration = λ text. ok (pos 60000000000);
  get_config = λ key w. (ok w.stored, w);
  update_status = λ config w. (none, record w { stored = kept_config config });
  now = λ w. (w.clock, record w { clock = w.clock + 1 });
}

abbrev before : State Memory
before = record { world = record { clock = 100000000005; stored = config }; calls = [] }

abbrev written : ReloaderConfig
written = noted remembering target config config before

-- Half a minute later.
abbrev later : State Memory
later = record { world = record { clock = 130000000000; stored = kept_config written }; calls = [] }

abbrev trigger : Target → State Memory → Failure × State Memory
trigger t s = (none, s)

writes :
    latest (process_status_update remembering (target_item config target "") before).1.calls
    ≡ some (updated_status written)
writes = λ i. latest (process_status_update-noted remembering target config config before refl i)

has_period : target.pause_period ≢ ""
has_period e = ground (arith, eq_iff "1m" "")

early :
    (remembering.now
      (read_at remembering reconciler "Secret" "db" trigger target config config config written
        (pos 60000000000)
        before
        later).world).0
    < whole_seconds
        (add_duration (reloaded_at remembering target config config before) (pos 60000000000))
unfolding add_duration
early = omega arith

reload_round-rests_example :
    ((reload_round remembering reconciler "Secret" "db" trigger
        (with_config target config)
        later).1.calls
      ≡ [])
    × ((reload_round remembering reconciler "Secret" "db" trigger
          (with_config target config)
          later).0
        ≡ false)
reload_round-rests_example =
    reload_round-rests remembering reconciler "Secret" "db" trigger target config config config
      written (pos 60000000000) before later refl writes refl has_period refl early

-- The world is the clock and the workload.
record Running : Type 0 where
  time : ℕ
  running : Workload

abbrev kept : Object → Running → Running
kept (workload t w) r = record r { running = w }
kept obj r = r

abbrev stamping_platform : Platform
stamping_platform = record (bare Running) {
  get_workload = λ t key w. (ok w.running, w);
  update = λ obj w. (none, kept obj w);
  now = λ w. (w.time, record w { time = w.time + 1 });
  parse_time = λ text. ok 100;
}

-- A target that annotations ask for.
abbrev annotated : Target
annotated = record target { config = none }

abbrev stamped_api : Workload
stamped_api = record api {
  annotations = assign "reloader.stakater.com/last-reload" "2026-01-01T00:00:00Z" api.annotations;
}

abbrev at_stamp : State Running
at_stamp = record { world = record { time = 100; running = api }; calls = [] }

abbrev at_check : State Running
at_check = record { world = record { time = 130; running = stamped_api }; calls = [] }

found_api :
    (get_workload stamping_platform annotated.kind annotated.name annotated.namespace at_stamp).0
    ≡ ok (workload deployment api)
unfolding get_workload
found_api = refl

found_stamped :
    (get_workload stamping_platform annotated.kind annotated.name annotated.namespace at_check).0
    ≡ ok (workload deployment stamped_api)
unfolding get_workload
found_stamped = refl

stamps :
    latest (set_last_reload_annotation stamping_platform annotated at_stamp).1.calls
    ≡ some (updated (workload deployment stamped_api))
unfolding set_last_reload_annotation get_workload
stamps = refl

is_paused-stamped_example :
    (is_paused stamping_platform annotated at_check).0
    ≡ ok (
        is_after (add_duration 100 (pos 60)) (
          checked_at stamping_platform annotated
            (workload deployment api)
            (workload deployment stamped_api)
            (pos 60)
            100
            at_stamp
            at_check))
is_paused-stamped_example =
    is_paused-stamped stamping_platform annotated (workload deployment api)
      (workload deployment stamped_api) (pos 60) 100 at_stamp at_check refl has_period refl
      found_api stamps found_stamped refl
