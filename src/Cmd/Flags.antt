-- ===== src/Cmd/Flags.antt =====
-- cmd/main.go: the flags, as they are after `flag.Parse`.
use reloader_operator.Base.{String, Bool, true, false}

pub record Flags : Type 0 where
  pub metrics_addr : String
  pub metrics_cert_path : String
  pub metrics_cert_name : String
  pub metrics_cert_key : String
  pub webhook_cert_path : String
  pub webhook_cert_name : String
  pub webhook_cert_key : String
  pub enable_leader_election : Bool
  pub probe_addr : String
  pub secure_metrics : Bool
  pub enable_http2 : Bool
  pub reload_on_create : Bool
  pub reload_on_delete : Bool
  pub resource_label_selector : String
  pub namespace_selector : String
  pub namespaces_to_ignore : String
  pub alert_on_reload : Bool
  pub alert_sink : String
  pub alert_webhook_url : String
  pub alert_additional_info : String
  pub rollout_strategy : String
  pub reload_strategy : String

-- The flags of a command line without any.
unfoldable pub defaults : Flags
defaults = record {
  metrics_addr = "0";
  metrics_cert_path = "";
  metrics_cert_name = "tls.crt";
  metrics_cert_key = "tls.key";
  webhook_cert_path = "";
  webhook_cert_name = "tls.crt";
  webhook_cert_key = "tls.key";
  enable_leader_election = false;
  probe_addr = ":8081";
  secure_metrics = true;
  enable_http2 = false;
  reload_on_create = false;
  reload_on_delete = false;
  resource_label_selector = "";
  namespace_selector = "";
  namespaces_to_ignore = "";
  alert_on_reload = false;
  alert_sink = "webhook";
  alert_webhook_url = "";
  alert_additional_info = "";
  rollout_strategy = "rollout";
  reload_strategy = "env-vars";
}
