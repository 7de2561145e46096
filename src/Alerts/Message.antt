-- ===== src/Alerts/Message.antt =====
-- internal/pkg/alerts/types.go, and the constructors of messages in alert_manager.go.
use reloader_operator.Base.{String, StringMap, some, [], ◌∷◌, concat}
use reloader_operator.Api.{Time}

pub record Message : Type 0 where
  pub title : String
  pub text : String
  pub color : String
  pub fields : StringMap
  pub timestamp : Time
  pub workload_kind : String
  pub workload_name : String
  pub workload_namespace : String
  pub resource_kind : String
  pub resource_name : String
  pub reload_strategy : String
  pub error : String

module _
    (workload_kind workload_name workload_namespace resource_kind resource_name
      reload_strategy : String) where
  unfoldable pub new_reload_success_message : Message
  new_reload_success_message = record {
    title = "🔄 Workload Reloaded";
    text = concat (
        "Successfully reloaded " ∷ workload_kind ∷ "/" ∷ workload_name ∷ " due to " ∷ resource_kind
        ∷ " change" ∷ []);
    color = "good";
    fields = some [];
    timestamp = 0;
    workload_kind = workload_kind;
    workload_name = workload_name;
    workload_namespace = workload_namespace;
    resource_kind = resource_kind;
    resource_name = resource_name;
    reload_strategy = reload_strategy;
    error = "";
  }

  unfoldable pub new_reload_error_message : String → Message
  new_reload_error_message error_msg = record {
    title = "❌ Reload Failed";
    text = concat (
        "Failed to reload " ∷ workload_kind ∷ "/" ∷ workload_name ∷ " due to " ∷ resource_kind
        ∷ " change" ∷ []);
    color = "danger";
    fields = some [];
    timestamp = 0;
    workload_kind = workload_kind;
    workload_name = workload_name;
    workload_namespace = workload_namespace;
    resource_kind = resource_kind;
    resource_name = resource_name;
    reload_strategy = reload_strategy;
    error = error_msg;
  }
