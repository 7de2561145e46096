-- ===== src/Controller/WorkItem.antt =====
-- internal/controller/reconciler_status.go: the items of the status update queue.
use reloader_operator.Base.{String, Option}
use reloader_operator.Kube.{ObjectKey}
use reloader_operator.Workload.Target.{Target}

abbrev pub status_update_type_reloader_config : String
status_update_type_reloader_config = "reloaderconfig"

abbrev pub status_update_type_target : String
status_update_type_target = "target"

-- `target` is a pointer; `none` is nil.
pub record StatusUpdateWorkItem : Type 0 where
  pub update_type : String
  pub config_key : ObjectKey
  pub resource_namespace : String
  pub resource_kind : String
  pub resource_name : String
  pub new_hash : String
  pub target : Option Target
  pub error_msg : String
