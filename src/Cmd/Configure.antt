-- ===== src/Cmd/Configure.antt =====
-- cmd/main.go: the configuration of the reconciler from the flags.
use reloader_operator.Base.{
  String, Bool, true, false, List, [], ◌∷◌, some, ◌==◌, if◌then◌else◌, GoMap, assign,
}
use reloader_operator.Kube.{Result, ok}
use reloader_operator.Platform.{Selector}
use reloader_operator.Util.Keys.{split}
use reloader_operator.Util.CommaLists.{trim_space}
use reloader_operator.Alerts.Manager.{new_alert_manager}
use reloader_operator.Controller.Reconciler.{Reconciler}
use reloader_operator.Cmd.Flags.{Flags}
use reloader_operator.Cmd.Process.{Process}

-- The loop over the namespaces to ignore.
unfoldable pub ignore_each : List String → GoMap Bool → GoMap Bool
ignore_each [] ignored = ignored
ignore_each (part ∷ parts) ignored =
    let ns = trim_space part in
    let without = ignore_each parts ignored in
    let with_ns = ignore_each parts (assign ns true ignored) in
    if ns == "" then without else with_ns

unfoldable pub ignored_namespaces : String → GoMap Bool
unfolding ignore_each
ignored_namespaces namespaces =
    if namespaces == "" then some [] else ignore_each (split namespaces ",") (some [])

module _ (o : Process) where
  -- The selector of a flag; an empty flag selects everything.
  unfoldable pub selector_of_flag : String → Result Selector
  selector_of_flag text = if text == "" then ok o.everything else o.parse_selector text

-- The reconciler that the process runs, for the selectors that were parsed.
unfoldable pub reconciler_of : Flags → Selector → Selector → Reconciler
reconciler_of flags resource_selector namespace_filter = record {
  alert_manager =
      new_alert_manager flags.alert_on_reload flags.alert_sink flags.alert_webhook_url
        flags.alert_additional_info;
  reload_on_create = flags.reload_on_create;
  reload_on_delete = flags.reload_on_delete;
  rollout_strategy = flags.rollout_strategy;
  reload_strategy = flags.reload_strategy;
  resource_label_selector = some resource_selector;
  namespace_selector = some namespace_filter;
  ignored_namespaces = ignored_namespaces flags.namespaces_to_ignore;
  controllers_initialized = false;
}
