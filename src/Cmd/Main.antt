-- ===== src/Cmd/Main.antt =====
-- cmd/main.go: `main` from the parsed flags on. A step that fails ends the process with code 1.
pub mod Runs
pub mod Ignored
use reloader_operator.Base.{none, some, ◌==◌, ◌&&◌, if◌then◌else◌}
use reloader_operator.Kube.{Result, ok, err, Failure}
use reloader_operator.Platform.{Selector}
use reloader_operator.Controller.Reconciler.{Reconciler}
use reloader_operator.Controller.Setup.{shut_down_status_queue, initialize_controllers}
use reloader_operator.Cmd.Flags.{Flags}
use reloader_operator.Cmd.Servers.{manager_options}
use reloader_operator.Cmd.Process.{Process}
use reloader_operator.Cmd.Configure.{selector_of_flag, reconciler_of}

-- Where the process exits with code 1.
pub data Stage : Type 0 where
  resource_selector namespace_selector manager alert_url controller healthz readyz running : Stage

-- `ran` is an ordinary end, after the manager was stopped.
pub data Exit : Type 0 where
  exited : Stage → Exit
  ran : Reconciler → Exit

module _ (o : Process) where
  -- `if err := …; err != nil { …; os.Exit(1) }`, and else the rest
  unfoldable pub step : Stage → Failure × o.World → (o.World → Exit × o.World) → Exit × o.World
  step stage (none, w) rest = rest w
  step stage (some e, w) rest = (exited stage, w)

  -- `if err := mgr.Add(…); err != nil { return err }`, and else the rest
  unfoldable pub and_then : Failure × o.World → (o.World → Failure × o.World) → Failure × o.World
  and_then (none, w) rest = rest w
  and_then (some e, w) rest = (some e, w)

  -- The worker runs from here on, also where one of the calls fails.
  unfoldable pub setup_with_manager : o.World → Failure × o.World
  unfolding and_then
  setup_with_manager w =
      and_then (o.add_runnable shut_down_status_queue (o.go_status_worker w))
        λ w. and_then (o.add_runnable initialize_controllers w) λ w. o.complete "reloaderconfig" w

  -- The steps behind the check of the alert flags.
  unfoldable pub run_manager : Reconciler → o.World → Exit × o.World
  unfolding step
  run_manager r w = step controller (setup_with_manager w) λ w.
      step healthz (o.add_healthz_check "healthz" w) λ w.
        step readyz (o.add_readyz_check "readyz" w) λ w. step running (o.start w) λ w. (ran r, w)

  -- The steps behind the parse of the selectors.
  unfoldable pub run : Flags → Selector → Selector → o.World → Exit × o.World
  unfolding step
  run flags resources namespaces w = step manager (o.new_manager (manager_options flags) w) λ w.
      if flags.alert_on_reload && flags.alert_webhook_url == ""
      then (exited alert_url, w)
      else run_manager (reconciler_of flags resources namespaces) w

  unfoldable pub with_namespaces : Flags → Selector → Result Selector → o.World → Exit × o.World
  with_namespaces flags resources (err e) w = (exited namespace_selector, w)
  with_namespaces flags resources (ok namespaces) w = run flags resources namespaces w

  unfoldable pub with_resources : Flags → Result Selector → o.World → Exit × o.World
  with_resources flags (err e) w = (exited resource_selector, w)
  with_resources flags (ok resources) w =
      with_namespaces flags resources (selector_of_flag o flags.namespace_selector) w

  unfoldable pub main : Flags → o.World → Exit × o.World
  main flags w = with_resources flags (selector_of_flag o flags.resource_label_selector) w
