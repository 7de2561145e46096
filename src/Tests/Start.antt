-- ===== src/Tests/Start.antt =====
-- Starts of the process.
use reloader_operator.Base.{
  ℕ, All, ◌+◌, true, false, none, ◌≡◌, ◌≢◌, ◌⊎◌, ◌↔◌, ◌==◌, refl, if◌then◌else◌,
}
use reloader_operator.Kube.{ok, err, secret}
use reloader_operator.Platform.{Selector}
use reloader_operator.Util.Names.{contains_string}
use reloader_operator.Util.CommaLists.{parse_comma_separated_list}
use reloader_operator.Controller.Reconciler.{Reconciler}
use reloader_operator.Controller.Predicates.Agreement.{Blocks}
use reloader_operator.Controller.Setup.{Watch, watches, after_cache_sync}
use reloader_operator.Cmd.Flags.{Flags}
use reloader_operator.Cmd.Process.{Process}
use reloader_operator.Cmd.Configure.{selector_of_flag, reconciler_of}
use reloader_operator.Cmd.Main.{exited, ran, resource_selector, namespace_selector, main}
use reloader_operator.Cmd.Main.Runs.{Unparsable, main-bad_selector}
use reloader_operator.Cmd.Main.Ignored.{main-ignores}
use reloader_operator.Tests.Sample.{platform, cluster, start, db, refused}

abbrev everything : Selector
everything = record { is_empty = true; matches = λ labels. true }

-- The world counts the calls.
abbrev process : Process
process = record {
  World = ℕ;
  parse_selector = λ text. if text == "app=" then err refused else ok everything;
  everything = everything;
  new_manager = λ options w. (none, w + 1);
  add_runnable = λ runnable w. (none, w + 1);
  complete = λ name w. (none, w + 1);
  add_healthz_check = λ name w. (none, w + 1);
  add_readyz_check = λ name w. (none, w + 1);
  go_status_worker = λ w. w + 1;
  start = λ w. (none, w + 1);
}

abbrev flags : Flags
flags = record {
  metrics_addr = "0";
  metrics_cert_path = "";
  metrics_cert_name = "tls.crt";
  metrics_cert_key = "tls.key";
  webhook_cert_path = "";
  webhook_cert_name = "tls.crt";
  webhook_cert_key = "tls.key";
  enable_leader_election = false;
  probe_addr = ":8081";
  secure_metrics = true;
  enable_http2 = false;
  reload_on_create = true;
  reload_on_delete = true;
  resource_label_selector = "app=db";
  namespace_selector = "";
  namespaces_to_ignore = "kube-system, shop";
  alert_on_reload = true;
  alert_sink = "slack";
  alert_webhook_url = "https://hooks.example/1";
  alert_additional_info = "";
  rollout_strategy = "rollout";
  reload_strategy = "env-vars";
}

abbrev bad_flags : Flags
bad_flags = record flags { namespace_selector = "app=" }

abbrev configured : Reconciler
configured = reconciler_of flags everything everything

runs : (main process flags 0).0 ≡ ran configured
unfolding main reloader_operator.Cmd.Main.with_resources selector_of_flag
    reloader_operator.Cmd.Main.with_namespaces reloader_operator.Cmd.Main.run
    reloader_operator.Cmd.Main.run_manager reloader_operator.Cmd.Main.setup_with_manager
runs = refl

main-bad_selector_example :
    (((main process bad_flags 0).0 ≡ exited resource_selector) ↔ Unparsable process "app=db")
    × (((main process bad_flags 0).0 ≡ exited namespace_selector)
        ↔ ((Unparsable process "app=db" → ⊥) × Unparsable process "app="))
    × (((main process bad_flags 0).1 ≡ 0)
        ⊎ (((main process bad_flags 0).0 ≢ exited resource_selector)
            × ((main process bad_flags 0).0 ≢ exited namespace_selector)))
main-bad_selector_example = main-bad_selector process bad_flags 0

shop_ignored : contains_string (parse_comma_separated_list "kube-system, shop") "shop" ≡ true
unfolding contains_string parse_comma_separated_list
shop_ignored = refl

main-ignores_example :
    All
      (λ (watch : Watch ℕ).
        Blocks
          (platform cluster)
          (after_cache_sync true configured)
          (secret db)
          start
          watch.predicates)
      (watches (platform cluster) (after_cache_sync true configured))
main-ignores_example =
    main-ignores process flags 0 configured (platform cluster) (secret db) start true runs
      shop_ignored
