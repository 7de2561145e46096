-- ===== src/Controller/Predicates/Agreement.antt =====
-- How the three predicates hang together.
use reloader_operator.Base.{true, false, some, ◌≡◌, ◌↔◌, arith, lookup}
use reloader_operator.Kube.{Object, get_namespace}
use reloader_operator.Platform.{Platform, State}
use reloader_operator.Controller.Reconciler.{Reconciler}
use reloader_operator.Controller.Discovery.{should_process_namespace}
use reloader_operator.Controller.Predicates.{
  Funcs, create_func, update_func, delete_func, secret_predicates, config_map_create_func,
  config_map_update_func, config_map_delete_func, config_map_predicates,
}

module _ (p : Platform) (r : Reconciler) (obj : Object) (s : State p.World) where
  -- A creation passes exactly when an update of the object would, and the controllers are initialized;
  -- a deletion passes exactly when a creation would, and reloads on deletion are on.
  pub create_delete_iff :
      (((create_func p r obj s).0 ≡ true)
        ↔ (((update_func p r obj s).0 ≡ true) × (r.controllers_initialized ≡ true)))
      × (((delete_func p r obj s).0 ≡ true)
          ↔ (((create_func p r obj s).0 ≡ true) × (r.reload_on_delete ≡ true)))
  unfolding create_func update_func delete_func
  create_delete_iff = (ground arith, ground arith)

  -- No event of the object passes.
  abbrev pub Blocks : Funcs p.World → Type 0
  Blocks funcs =
      ((funcs.create obj s).0 ≡ false)
      × ((funcs.update obj s).0 ≡ false)
      × ((funcs.delete obj s).0 ≡ false)

  -- No event of an object passes whose namespace is ignored.
  pub ignored_namespace :
      lookup (get_namespace obj) r.ignored_namespaces ≡ some true
      → Blocks (secret_predicates p r) × Blocks (config_map_predicates p r)
  unfolding secret_predicates create_func update_func delete_func config_map_predicates
      config_map_create_func config_map_update_func config_map_delete_func should_process_namespace
  ignored_namespace h =
      ((ground arith, ground arith, ground arith), (ground arith, ground arith, ground arith))
