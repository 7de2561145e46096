-- ===== src/Tests/Updates.antt =====
-- The template and the triggers, on the sample cluster.
use reloader_operator.Base.{
  String, none, some, ◌≡◌, ◌≢◌, ◌↔◌, ◌⊎◌, refl, List, [], ◌∷◌, ◌++◌, arith, eq_iff, Some, lookup,
  if◌then◌else◌, ◌==◌,
}
use reloader_operator.Kube.{ok, PodTemplateSpec, Pod, Workload, WorkloadType}
use reloader_operator.Util.Names.{annotation_last_reload, annotation_last_reloaded_from}
use reloader_operator.Util.EnvNames.{get_env_var_name}
use reloader_operator.Workload.Target.{Target}
use reloader_operator.Workload.Template.{
  apply_env_vars_strategy, apply_annotations_strategy, apply_delete_annotations_strategy,
}
use reloader_operator.Workload.Template.Effects.{
  MarksFirst, apply_env_vars_strategy-MarksFirst, apply_annotations_strategies,
}
use reloader_operator.Workload.Template.Collisions.{apply_env_vars_strategy-collision}
use reloader_operator.Workload.Updater.{trigger_reload, trigger_delete_reload, restart_listed_pods}
use reloader_operator.Workload.Updater.Restart.{deletions, answers, restart_listed_pods-success_iff}
use reloader_operator.Workload.Updater.Triggers.{trigger-restart}
use reloader_operator.Workload.Updater.Rollouts.{
  Changes, NotWritten, Written, shown, reload_workload_generic-outcome,
}
use reloader_operator.Util.Workloads.Answers.{IsRead}
use reloader_operator.Tests.Sample.{platform, cluster, start, target, template, pods}

-- The template with the hash of a Secret in its first container.
abbrev marked : String → String → PodTemplateSpec
marked resource_name hash = record {
  annotations = none;
  spec = record {
    containers =
        record {
          name = "api";
          env =
              record { name = "LEVEL"; value = "info"; value_from = none }
              ∷ record {
                name = get_env_var_name "Secret" resource_name;
                value = hash;
                value_from = none;
              }
              ∷ [];
          env_from = record { secret_ref = some "db"; config_map_ref = none } ∷ [];
        }
        ∷ [];
    init_containers = [];
    volumes = [];
  };
}

marks : (apply_env_vars_strategy "Secret" "db" "2c26" template) ≡ ok (marked "db" "2c26")
unfolding apply_env_vars_strategy get_env_var_name
marks = refl

apply_env_vars_strategy-MarksFirst_example :
    MarksFirst (get_env_var_name "Secret" "db") "2c26" template (marked "db" "2c26")
    × ((marked "db" "2c26").annotations ≡ template.annotations)
apply_env_vars_strategy-MarksFirst_example =
    apply_env_vars_strategy-MarksFirst "Secret" "db" "2c26" template (marked "db" "2c26") marks

marks_dashed :
    (apply_env_vars_strategy "Secret" "db-tls" "2c26" template) ≡ ok (marked "db-tls" "2c26")
unfolding apply_env_vars_strategy get_env_var_name
marks_dashed = refl

apply_env_vars_strategy-collision_example :
    (get_env_var_name "Secret" "db-tls" ≡ get_env_var_name "Secret" "db.tls")
    × (apply_env_vars_strategy "Secret" "db.tls" "2c26" (marked "db-tls" "2c26")
        ≡ ok (marked "db-tls" "2c26"))
apply_env_vars_strategy-collision_example =
    apply_env_vars_strategy-collision "Secret" "db" "tls" "2c26" template (marked "db-tls" "2c26")
      marks_dashed

apply_annotations_strategies_example :
    (lookup "team" (apply_annotations_strategy "now" "db" template).annotations ≡ (
      if annotation_last_reloaded_from == "team"
      then some "db"
      else if annotation_last_reload == "team"
      then some "now"
      else lookup "team" template.annotations))
    × (lookup "team" (apply_delete_annotations_strategy "now" template).annotations ≡ (
        if annotation_last_reloaded_from == "team"
        then none
        else if annotation_last_reload == "team"
        then some "now"
        else lookup "team" template.annotations))
    × ((apply_annotations_strategy "now" "db" template).spec ≡ template.spec)
    × ((apply_delete_annotations_strategy "now" template).spec ≡ template.spec)
apply_annotations_strategies_example = apply_annotations_strategies "now" "db" template "team"

restart_listed_pods-success_iff_example :
    (((restart_listed_pods (platform cluster) pods start).0 ≡ none)
      ↔ ((pods ≡ []) ⊎ Some (λ f. f ≡ none) (answers (platform cluster) pods start.world)))
    × ((restart_listed_pods (platform cluster) pods start).1.calls ≡ deletions pods ++ start.calls)
restart_listed_pods-success_iff_example =
    restart_listed_pods-success_iff (platform cluster) pods start

-- A kind that the operator does not reload.
abbrev job : Target
job = record target { kind = "Job" }

job-ne-deployment : job.kind ≢ "Deployment"
job-ne-deployment e = ground (arith, eq_iff "Job" "Deployment")

job-ne-stateful_set : job.kind ≢ "StatefulSet"
job-ne-stateful_set e = ground (arith, eq_iff "Job" "StatefulSet")

job-ne-daemon_set : job.kind ≢ "DaemonSet"
job-ne-daemon_set e = ground (arith, eq_iff "Job" "DaemonSet")

abbrev restarted : Target
restarted = record target { rollout_strategy = "restart" }

trigger-restart_example :
    ((ps : List Pod) × ((trigger_reload
          (platform cluster)
          restarted
          "Secret"
          "db"
          "shop"
          "2c26"
          start).1.calls
        ≡ deletions ps ++ []))
    × ((ps : List Pod) × ((trigger_delete_reload
            (platform cluster)
            restarted
            "Secret"
            "db"
            start).1.calls
          ≡ deletions ps ++ []))
trigger-restart_example =
    trigger-restart (platform cluster) restarted "Secret" "db" "shop" "2c26" start refl

reload_workload_generic-outcome_example :
    NotWritten
      (platform cluster)
      "Deployment"
      "api"
      "shop"
      "env-vars"
      "{}"
      "Secret"
      "db"
      "2c26"
      start
    ⊎ ((t : WorkloadType) × (w : Workload) × (template : PodTemplateSpec) × IsRead
          (platform cluster)
          "Deployment"
          "api"
          "shop"
          start
          t
          w
        × Changes "Secret" "db" "env-vars" "{}" "2c26"
            (shown
              (platform cluster)
              "Deployment"
              "api"
              "shop"
              "env-vars"
              "{}"
              "Secret"
              "db"
              "2c26"
              start)
            w.template
            template
        × Written
            (platform cluster)
            "Deployment"
            "api"
            "shop"
            "env-vars"
            "{}"
            "Secret"
            "db"
            "2c26"
            start
            t
            w
            template)
reload_workload_generic-outcome_example =
    reload_workload_generic-outcome (platform cluster) "Deployment" "api" "shop" "env-vars" "{}"
      "Secret" "db" "2c26" start
