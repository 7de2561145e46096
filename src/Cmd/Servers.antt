-- ===== src/Cmd/Servers.antt =====
-- cmd/main.go: the options of the webhook server, the metrics server and the manager.
use reloader_operator.Base.{String, Bool, true, false, List, [], ◌∷◌, ◌==◌, if◌then◌else◌}
use reloader_operator.Cmd.Flags.{Flags}

-- A TLS option changes a configuration; the code has one, which sets the protocols.
pub data TlsOpt : Type 0 where
  next_protos : List String → TlsOpt

abbrev pub disable_http2 : TlsOpt
disable_http2 = next_protos ("http/1.1" ∷ [])

unfoldable pub tls_opts : Flags → List TlsOpt
tls_opts flags = if flags.enable_http2 then [] else disable_http2 ∷ []

-- The empty texts are the zero values of options that are not set.
pub record WebhookOptions : Type 0 where
  pub webhook_tls : List TlsOpt
  pub cert_dir : String
  pub cert_name : String
  pub key_name : String

unfoldable pub webhook_options : Flags → WebhookOptions
webhook_options flags =
    let options : WebhookOptions = record {
      webhook_tls = tls_opts flags;
      cert_dir = "";
      cert_name = "";
      key_name = "";
    } in
    if flags.webhook_cert_path == "" then options else record options {
      cert_dir = flags.webhook_cert_path;
      cert_name = flags.webhook_cert_name;
      key_name = flags.webhook_cert_key;
    }

-- `authorized` is set where `FilterProvider` is `WithAuthenticationAndAuthorization`.
pub record MetricsOptions : Type 0 where
  pub bind_address : String
  pub secure_serving : Bool
  pub metrics_tls : List TlsOpt
  pub authorized : Bool
  pub metrics_cert_dir : String
  pub metrics_cert_name : String
  pub metrics_key_name : String

unfoldable pub metrics_options : Flags → MetricsOptions
metrics_options flags =
    let options : MetricsOptions = record {
      bind_address = flags.metrics_addr;
      secure_serving = flags.secure_metrics;
      metrics_tls = tls_opts flags;
      authorized = (if flags.secure_metrics then true else false);
      metrics_cert_dir = "";
      metrics_cert_name = "";
      metrics_key_name = "";
    } in
    if flags.metrics_cert_path == "" then options else record options {
      metrics_cert_dir = flags.metrics_cert_path;
      metrics_cert_name = flags.metrics_cert_name;
      metrics_key_name = flags.metrics_cert_key;
    }

pub record ManagerOptions : Type 0 where
  pub metrics : MetricsOptions
  pub webhook : WebhookOptions
  pub health_probe_bind_address : String
  pub leader_election : Bool
  pub leader_election_id : String

unfoldable pub manager_options : Flags → ManagerOptions
manager_options flags = record {
  metrics = metrics_options flags;
  webhook = webhook_options flags;
  health_probe_bind_address = flags.probe_addr;
  leader_election = flags.enable_leader_election;
  leader_election_id = "7a47c3f6.stakater.com";
}
