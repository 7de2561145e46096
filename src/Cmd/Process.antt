-- ===== src/Cmd/Process.antt =====
-- What the start of the process runs on: the manager of controller-runtime and the parser of label
-- selectors. `World` is all that the manager keeps.
use reloader_operator.Base.{String}
use reloader_operator.Kube.{Result, Failure}
use reloader_operator.Platform.{Selector}
use reloader_operator.Cmd.Servers.{ManagerOptions}
use reloader_operator.Controller.Setup.{Runnable}

pub record Process : Type 1 where
  pub World : Type 0
  -- `labels.Parse` and `labels.Everything()`
  pub parse_selector : String → Result Selector
  pub everything : Selector
  -- `ctrl.NewManager`, `mgr.Add`, the builder's `Complete`, and the checks by their names
  pub new_manager : ManagerOptions → World → Failure × World
  pub add_runnable : Runnable → World → Failure × World
  pub complete : String → World → Failure × World
  pub add_healthz_check : String → World → Failure × World
  pub add_readyz_check : String → World → Failure × World
  -- The goroutine of the status worker, and `mgr.Start`, which returns when the process is stopped
  pub go_status_worker : World → World
  pub start : World → Failure × World
