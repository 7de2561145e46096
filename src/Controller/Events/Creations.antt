-- ===== src/Controller/Events/Creations.antt =====
-- What a creation calls.
use reloader_operator.Base.{
  ℕ, some, arith, if◌then◌else◌, String, false, List, [], ◌∷◌, ◌≡◌, ◌∙◌, ap, refl,
}
use reloader_operator.Kube.{GoError, Result, ok, err, Object, get_name, get_namespace}
use reloader_operator.Api.{ReloaderConfig}
use reloader_operator.Platform.{Platform, State, Call, enqueued, updated}
use reloader_operator.Util.Hash.{get_resource_data_and_hash}
use reloader_operator.Workload.Target.{Target}
use reloader_operator.Controller.Reconciler.{Reconciler}
use reloader_operator.Controller.StatusQueue.{config_item, update_reloader_config_statuses}
use reloader_operator.Controller.Discovery.{discover_targets, filter_targets_for_targeted_reload}
use reloader_operator.Controller.Reload.{execute_reloads}
use reloader_operator.Controller.Discovery.Quiet.{discover_targets-IsQuiet}
use reloader_operator.Controller.Events.{
  with_hash, is_ignored, update_resource_hash, reload_created, reconcile_resource_created,
}

module _ (p : Platform) (namespace kind name hash : String) where
  -- An item for each config of the list, put into the queue in the order of the list.
  abbrev pub enqueue_each : List ReloaderConfig → List Call → List Call
  enqueue_each [] calls = calls
  enqueue_each (config ∷ configs) calls =
      enqueue_each configs (enqueued (config_item namespace kind name hash config) ∷ calls)

  pub update_reloader_config_statuses-calls :
      (configs : List ReloaderConfig) (s : State p.World)
      → (update_reloader_config_statuses p configs namespace kind name hash s).1.calls
        ≡ enqueue_each configs s.calls
  unfolding update_reloader_config_statuses
  update_reloader_config_statuses-calls [] s = refl
  update_reloader_config_statuses-calls (config ∷ configs) s =
      update_reloader_config_statuses-calls configs _

module _ (p : Platform) (r : Reconciler) (kind hash : String) (obj : Object)
    (s : State p.World) where
  abbrev pub discovering : Result (List Target × List ReloaderConfig) × State p.World
  discovering = discover_targets p r kind (get_name obj) (get_namespace obj) s

  -- The state once the items of the configs are in the queue, and the reloads that follow.
  abbrev pub queued : List ReloaderConfig → State p.World
  queued configs =
      (update_reloader_config_statuses p configs (get_namespace obj) kind (get_name obj) hash
        discovering.1).1

  abbrev pub reloading : List Target → List ReloaderConfig → ℕ × State p.World
  reloading targets configs =
      let (filtered, ready) =
        filter_targets_for_targeted_reload p kind (get_name obj) targets (queued configs) in
      execute_reloads p r kind (get_name obj) filtered (get_namespace obj) hash ready

  -- A creation without reloads on creation reloads nothing: for an object that is not ignored and whose
  -- discovery succeeds, the calls that leave a mark are, in this order, an item with the new hash for
  -- each config that was found, and the update of the object with the hash.
  pub reconcile_resource_created-calls :
      {targets : List Target} {configs : List ReloaderConfig}
      → get_resource_data_and_hash p.sha256 obj ≡ ok hash
      → is_ignored obj ≡ false
      → r.reload_on_create ≡ false
      → discovering.0 ≡ ok (targets, configs)
      → (reconcile_resource_created p r kind obj s).1.calls
        ≡ updated (with_hash hash obj)
          ∷ enqueue_each p (get_namespace obj) kind (get_name obj) hash configs s.calls
  unfolding reconcile_resource_created reload_created update_resource_hash
  reconcile_resource_created-calls {targets} {configs} h i off found =
      let r' : Reconciler = record r { reload_on_create = false } in
      let s' = (discover_targets p r' kind (get_name obj) (get_namespace obj) s).1 in
      let quiet = discover_targets-IsQuiet p kind (get_name obj) r' (get_namespace obj) s in
      let each = enqueue_each p (get_namespace obj) kind (get_name obj) hash configs in
      rw (i, h, found, off)
        (ap (λ calls. updated (with_hash hash obj) ∷ calls)
          (update_reloader_config_statuses-calls p (get_namespace obj) kind (get_name obj) hash
              configs s'
            ∙ ap each quiet))

  -- A creation of an object that is not ignored: where the discovery succeeds, an item with the new hash
  -- for each config that was found comes first, in their order; then, with reloads on creation, the
  -- reloads of the targets that pass the filter, and without them none; and last the update of the
  -- object with the hash. Where the discovery fails, its error is the result and nothing is called.
  pub reconcile_resource_created-outcome :
      get_resource_data_and_hash p.sha256 obj ≡ ok hash
      → is_ignored obj ≡ false
      → ((targets : List Target) (configs : List ReloaderConfig)
          → discovering.0 ≡ ok (targets, configs)
          → ((queued configs).calls
              ≡ enqueue_each p (get_namespace obj) kind (get_name obj) hash configs s.calls)
            × ((reconcile_resource_created p r kind obj s).1.calls
                ≡ updated (with_hash hash obj)
                  ∷ (if r.reload_on_create
                      then (reloading targets configs).1.calls
                      else (queued configs).calls)))
        × ((e : GoError)
            → discovering.0 ≡ err e
            → ((reconcile_resource_created p r kind obj s).0 ≡ some e)
              × ((reconcile_resource_created p r kind obj s).1.calls ≡ s.calls))
  unfolding reconcile_resource_created reload_created update_resource_hash
  reconcile_resource_created-outcome h i = (
    λ targets configs found. (
      update_reloader_config_statuses-calls p (get_namespace obj) kind (get_name obj) hash configs
            discovering.1
          ∙ ap (enqueue_each p (get_namespace obj) kind (get_name obj) hash configs)
              (discover_targets-IsQuiet p kind (get_name obj) r (get_namespace obj) s),
      ground (arith, h, i, found),
    ),
    λ e failed. (
      ground (arith, h, i, failed),
      ground (
        arith,
        h,
        i,
        failed,
        discover_targets-IsQuiet p kind (get_name obj) r (get_namespace obj) s,
      ),
    ),
  )
