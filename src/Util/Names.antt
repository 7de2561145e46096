-- ===== src/Util/Names.antt =====
-- internal/pkg/util/helpers.go: the annotation keys, the kinds and the strategies, and the tests on
-- kinds.
use reloader_operator.Base.{
  String, Bool, true, false, List, [], ◌∷◌, ◌==◌, ◌||◌, if◌then◌else◌, StringMap, index,
}

abbrev pub annotation_last_hash : String
annotation_last_hash = "reloader.stakater.com/last-hash"

abbrev pub annotation_auto : String
annotation_auto = "reloader.stakater.com/auto"

abbrev pub annotation_search : String
annotation_search = "reloader.stakater.com/search"

abbrev pub annotation_match : String
annotation_match = "reloader.stakater.com/match"

abbrev pub annotation_ignore : String
annotation_ignore = "reloader.stakater.com/ignore"

abbrev pub annotation_rollout_strategy : String
annotation_rollout_strategy = "reloader.stakater.com/rollout-strategy"

abbrev pub annotation_last_reload : String
annotation_last_reload = "reloader.stakater.com/last-reload"

abbrev pub annotation_last_reloaded_from : String
annotation_last_reloaded_from = "reloader.stakater.com/last-reloaded-from"

abbrev pub annotation_secret_reload : String
annotation_secret_reload = "secret.reloader.stakater.com/reload"

abbrev pub annotation_secret_auto : String
annotation_secret_auto = "secret.reloader.stakater.com/auto"

abbrev pub annotation_config_map_reload : String
annotation_config_map_reload = "configmap.reloader.stakater.com/reload"

abbrev pub annotation_config_map_auto : String
annotation_config_map_auto = "configmap.reloader.stakater.com/auto"

abbrev pub annotation_deployment_pause_period : String
annotation_deployment_pause_period = "deployment.reloader.stakater.com/pause-period"

abbrev pub annotation_stateful_set_pause_period : String
annotation_stateful_set_pause_period = "statefulset.reloader.stakater.com/pause-period"

abbrev pub annotation_daemon_set_pause_period : String
annotation_daemon_set_pause_period = "daemonset.reloader.stakater.com/pause-period"

abbrev pub env_var_prefix : String
env_var_prefix = "STAKATER_"

abbrev pub kind_secret : String
kind_secret = "Secret"

abbrev pub kind_config_map : String
kind_config_map = "ConfigMap"

abbrev pub kind_deployment : String
kind_deployment = "Deployment"

abbrev pub kind_stateful_set : String
kind_stateful_set = "StatefulSet"

abbrev pub kind_daemon_set : String
kind_daemon_set = "DaemonSet"

abbrev pub kind_deployment_config : String
kind_deployment_config = "DeploymentConfig"

abbrev pub kind_rollout : String
kind_rollout = "Rollout"

abbrev pub kind_cron_job : String
kind_cron_job = "CronJob"

abbrev pub rollout_strategy_restart : String
rollout_strategy_restart = "restart"

abbrev pub rollout_strategy_rollout : String
rollout_strategy_rollout = "rollout"

abbrev pub reload_strategy_env_vars : String
reload_strategy_env_vars = "env-vars"

abbrev pub reload_strategy_annotations : String
reload_strategy_annotations = "annotations"

unfoldable pub contains_string : List String → String → Bool
contains_string [] str = false
contains_string (s ∷ slice) str = if s == str then true else contains_string slice str

unfoldable pub is_supported_workload_kind : String → Bool
unfolding contains_string
is_supported_workload_kind kind =
    contains_string
      (kind_deployment ∷ kind_stateful_set ∷ kind_daemon_set ∷ kind_deployment_config ∷ kind_rollout
        ∷ kind_cron_job ∷ [])
      kind

unfoldable pub is_supported_resource_kind : String → Bool
is_supported_resource_kind kind = kind == kind_secret || kind == kind_config_map

-- The guard on a nil map is that of `index`, which reads "" there.
unfoldable pub should_reload_on_create : Bool → StringMap → Bool
should_reload_on_create reload_on_create annotations =
    if reload_on_create
    then true
    else if index "reloader.stakater.com/reload-on-create" annotations == "true"
    then true
    else false

unfoldable pub should_reload_on_delete : Bool → StringMap → Bool
should_reload_on_delete reload_on_delete annotations =
    if reload_on_delete
    then true
    else if index "reloader.stakater.com/reload-on-delete" annotations == "true"
    then true
    else false
