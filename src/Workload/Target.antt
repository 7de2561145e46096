-- ===== src/Workload/Target.antt =====
-- internal/pkg/workload/finder.go: a workload that is to be reloaded.
use reloader_operator.Base.{String, Bool, Option}
use reloader_operator.Api.{ReloaderConfig}

-- `config` is the ReloaderConfig behind the target; `none` is nil, an annotation-based target.
pub record Target : Type 0 where
  pub kind : String
  pub name : String
  pub namespace : String
  pub rollout_strategy : String
  pub reload_strategy : String
  pub pause_period : String
  pub require_reference : Bool
  pub config : Option ReloaderConfig
