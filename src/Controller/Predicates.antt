-- ===== src/Controller/Predicates.antt =====
-- internal/controller/reconciler_predicates.go: the events of Secrets and ConfigMaps that are let
-- through.
pub mod Agreement
use reloader_operator.Base.{Bool, true, false, Option, none, some, ◌&&◌, if◌then◌else◌, StringMap}
use reloader_operator.Kube.{Object, workload, secret, config_map, get_namespace}
use reloader_operator.Platform.{Platform, Selector, M, pure, ◌>>=◌}
use reloader_operator.Controller.Reconciler.{Reconciler}
use reloader_operator.Controller.Discovery.{should_process_namespace}

-- `obj.GetLabels()`; the predicates meet Secrets and ConfigMaps only.
abbrev get_labels : Object → StringMap
get_labels (secret s) = s.labels
get_labels (config_map c) = c.labels
get_labels (workload t w) = none

-- `r.ResourceLabelSelector != nil && !r.ResourceLabelSelector.Matches(…)`, negated
abbrev pub passes_selector : Option Selector → StringMap → Bool
passes_selector none labels = true
passes_selector (some selector) labels = selector.matches labels

-- `predicate.Funcs`
pub record Funcs (W : Type 0) : Type 0 where
  pub create : Object → M W Bool
  pub update : Object → M W Bool
  pub delete : Object → M W Bool

module _ (p : Platform) (r : Reconciler) where
  -- The two tests that each function makes first, and its last line.
  abbrev filtered : Object → Bool → M p.World Bool
  filtered obj last = do
    process ← should_process_namespace p r (get_namespace obj)
    pure (
        if process
        then (if passes_selector r.resource_label_selector (get_labels obj) then last else false)
        else false)

  unfoldable pub create_func : Object → M p.World Bool
  create_func obj = filtered obj r.controllers_initialized

  unfoldable pub update_func : Object → M p.World Bool
  update_func obj = filtered obj true

  unfoldable pub delete_func : Object → M p.World Bool
  delete_func obj = filtered obj (r.reload_on_delete && r.controllers_initialized)

  unfoldable pub secret_predicates : Funcs p.World
  secret_predicates = record { create = create_func; update = update_func; delete = delete_func }

  -- The functions for ConfigMaps
  unfoldable pub config_map_create_func : Object → M p.World Bool
  config_map_create_func obj = filtered obj r.controllers_initialized

  unfoldable pub config_map_update_func : Object → M p.World Bool
  config_map_update_func obj = filtered obj true

  unfoldable pub config_map_delete_func : Object → M p.World Bool
  config_map_delete_func obj = filtered obj (r.reload_on_delete && r.controllers_initialized)

  unfoldable pub config_map_predicates : Funcs p.World
  config_map_predicates = record {
    create = config_map_create_func;
    update = config_map_update_func;
    delete = config_map_delete_func;
  }
