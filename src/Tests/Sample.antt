-- ===== src/Tests/Sample.antt =====
-- A cluster in which the world is the clock and the client answers from a fixed store.
use reloader_operator.Base.{
  ℕ, ◌+◌, String, true, false, List, [], ◌∷◌, Option, none, some, ◌==◌, if◌then◌else◌,
}
use reloader_operator.Kube.{
  GoError, Result, ok, err, Failure, Bytes, Container, PodTemplateSpec, Workload, Pod, Secret,
}
use reloader_operator.Api.{Duration, pos, TargetWorkload, ReloaderConfigStatus, ReloaderConfig}
use reloader_operator.Controller.WorkItem.{StatusUpdateWorkItem}
use reloader_operator.Controller.Reconciler.{Reconciler}
use reloader_operator.Platform.{Platform, State}
use reloader_operator.Workload.Target.{Target}

abbrev pub not_found : GoError
not_found = record { text = "not found"; is_not_found = true }

abbrev pub refused : GoError
refused = record { text = "refused"; is_not_found = false }

-- What the client answers.
pub record Cluster : Type 0 where
  pub config : Result ReloaderConfig
  pub configs : Result (List ReloaderConfig)
  pub workload : Result Workload
  pub pods : Result (List Pod)
  pub item : Option StatusUpdateWorkItem
  pub requeues : ℕ
  pub status_code : ℕ

-- The first pod cannot be deleted.
abbrev pub delete_answer : Pod → Failure
delete_answer pod = if pod.name == "api-0" then some refused else none

abbrev pub sample_hash : Bytes → String
sample_hash [] = "e3b0"
sample_hash (b ∷ bs) = "2c26"

abbrev pub sample_duration : String → Result Duration
sample_duration text = if text == "1m" then ok (pos 60) else err refused

-- A platform that does nothing, at any world: nothing is found, and writes succeed without effect.
abbrev pub bare : Type 0 → Platform
bare W = record {
  World = W;
  get_config = λ key w. (err not_found, w);
  get_secret = λ key w. (err not_found, w);
  get_config_map = λ key w. (err not_found, w);
  get_workload = λ t key w. (err not_found, w);
  get_namespace_labels = λ name w. (ok none, w);
  list_configs = λ namespace w. (ok [], w);
  list_workloads = λ t namespace w. (ok [], w);
  list_pods = λ namespace labels w. (ok [], w);
  update = λ obj w. (none, w);
  update_status = λ config w. (none, w);
  delete_pod = λ pod w. (none, w);
  queue_add = λ item w. w;
  queue_get = λ w. (none, w);
  queue_num_requeues = λ item w. (0, w);
  queue_add_rate_limited = λ item w. w;
  queue_forget = λ item w. w;
  queue_done = λ item w. w;
  do_request = λ url body w. (err refused, w);
  now = λ w. (100, w);
  sha256 = sample_hash;
  marshal_reload_source = λ source. ok source.hash;
  marshal_payload = λ payload. ok "{}";
  new_request = λ url body. none;
  parse_duration = sample_duration;
  format_time = λ t. "2026-01-01T00:00:00Z";
  parse_time = λ text. err refused;
}

abbrev pub platform : Cluster → Platform
platform c = record (bare ℕ) {
  get_config = λ key w. (c.config, w);
  get_workload = λ t key w. (c.workload, w);
  list_configs = λ namespace w. (c.configs, w);
  list_pods = λ namespace labels w. (c.pods, w);
  update = λ obj w. (none, w + 1);
  update_status = λ config w. (none, w + 1);
  delete_pod = λ pod w. (delete_answer pod, w + 1);
  queue_get = λ w. (c.item, w);
  queue_num_requeues = λ item w. (c.requeues, w);
  do_request = λ url body w. (ok c.status_code, w + 1);
  now = λ w. (w, w + 1);
}

abbrev pub start : State ℕ
start = record { world = 100; calls = [] }

abbrev pub reconciler : Reconciler
reconciler = record {
  alert_manager = record {
    alert_on_reload = false;
    alert_sink = "";
    alert_webhook_url = "";
    alert_additional_info = "";
  };
  reload_on_create = true;
  reload_on_delete = true;
  rollout_strategy = "";
  reload_strategy = "";
  resource_label_selector = none;
  namespace_selector = none;
  ignored_namespaces = none;
  controllers_initialized = true;
}

abbrev pub db_env : Container
db_env = record {
  name = "api";
  env = record { name = "LEVEL"; value = "info"; value_from = none } ∷ [];
  env_from = record { secret_ref = some "db"; config_map_ref = none } ∷ [];
}

abbrev pub template : PodTemplateSpec
template = record {
  annotations = none;
  spec = record { containers = db_env ∷ []; init_containers = []; volumes = [] };
}

abbrev pub empty_template : PodTemplateSpec
empty_template = record {
  annotations = none;
  spec = record { containers = []; init_containers = []; volumes = [] };
}

abbrev pub api : Workload
api = record {
  name = "api";
  namespace = "shop";
  annotations = some (("reloader.stakater.com/auto", "true") ∷ []);
  selector = some (record { match_labels = some (("app", "api") ∷ []) });
  template = template;
}

abbrev pub api_target : TargetWorkload
api_target = record {
  kind = "Deployment";
  name = "api";
  namespace = "";
  rollout_strategy = "";
  reload_strategy = "";
  pause_period = "1m";
  require_reference = true;
}

abbrev pub status : ReloaderConfigStatus
status = record {
  conditions = [];
  last_reload_time = none;
  watched_resource_hashes = none;
  reload_count = 0;
  target_status = [];
  observed_generation = 0;
}

abbrev pub config : ReloaderConfig
config = record {
  name = "reloads";
  namespace = "shop";
  generation = 3;
  annotations = none;
  spec = record {
    watched_resources = some (record {
      secrets = "db" ∷ [];
      config_maps = [];
      enable_targeted_reload = true;
      namespace_selector = none;
      resource_selector = none;
    });
    targets = api_target ∷ [];
    rollout_strategy = "";
    reload_strategy = "";
    auto_reload_all = false;
    ignore_resources = record { kind = "Secret"; name = "tls"; namespace = "" } ∷ [];
    match_labels = none;
  };
  status = status;
}

-- The target of the config.
abbrev pub target : Target
target = record {
  kind = "Deployment";
  name = "api";
  namespace = "shop";
  rollout_strategy = "rollout";
  reload_strategy = "env-vars";
  pause_period = "1m";
  require_reference = true;
  config = some config;
}

abbrev pub db : Secret
db = record {
  name = "db";
  namespace = "shop";
  labels = none;
  annotations = none;
  contents = some (("password", 115 ∷ []) ∷ []);
}

abbrev pub pods : List Pod
pods =
    record { name = "api-0"; namespace = "shop" }
    ∷ record { name = "api-1"; namespace = "shop" }
    ∷ []

abbrev pub cluster : Cluster
cluster = record {
  config = ok config;
  configs = ok (config ∷ []);
  workload = ok api;
  pods = ok pods;
  item = none;
  requeues = 0;
  status_code = 200;
}
