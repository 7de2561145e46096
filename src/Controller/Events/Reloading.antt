-- ===== src/Controller/Events/Reloading.antt =====
-- What an update and a deletion call around their reloads.
use reloader_operator.Base.{
  ℕ, String, false, none, some, Bool-cases, inl, inr, List, [], ◌∷◌, ◌≡◌, ◌≢◌, ap, refl, arith,
  eq_iff, lookup, if◌then◌else◌, ltb, ◌==◌,
}
use reloader_operator.Kube.{
  GoError, ok, err, ObjectKey, Object, get_annotations, get_name, get_namespace, Result,
}
use reloader_operator.Api.{ReloaderConfig}
use reloader_operator.Platform.{Platform, State, updated, enqueued}
use reloader_operator.Util.Keys.{make_resource_key}
use reloader_operator.Util.Hash.{get_resource_data_and_hash}
use reloader_operator.Workload.Target.{Target}
use reloader_operator.Controller.Reconciler.{Reconciler}
use reloader_operator.Controller.StatusQueue.{config_item, remove_reloader_config_status_entries}
use reloader_operator.Controller.Discovery.{discover_targets, filter_targets_for_targeted_reload}
use reloader_operator.Controller.Discovery.Quiet.{discover_targets-IsQuiet}
use reloader_operator.Controller.Reload.{execute_reloads, execute_delete_reloads}
use reloader_operator.Controller.Events.{
  get_stored_hash, with_hash, is_ignored, update_resource_hash, reload_changed,
  reconcile_resource_update, reload_deleted, reconcile_resource_deleted,
}
use reloader_operator.Controller.Events.Creations.{
  enqueue_each, update_reloader_config_statuses-calls,
}

module _ (p : Platform) (r : Reconciler) (kind name namespace : String) (s : State p.World) where
  abbrev pub discovering : Result (List Target × List ReloaderConfig) × State p.World
  discovering = discover_targets p r kind name namespace s

  module _ (targets : List Target) where
    -- The targets that are left by the filter, and the reloads of them.
    abbrev filtering : List Target × State p.World
    filtering = filter_targets_for_targeted_reload p kind name targets discovering.1

    abbrev pub reloading : String → ℕ × State p.World
    reloading hash = execute_reloads p r kind name filtering.0 namespace hash filtering.1

    abbrev pub delete_reloading : ℕ × State p.World
    delete_reloading = execute_delete_reloads p r kind name filtering.0 filtering.1

module _ (p : Platform) (r : Reconciler) (kind hash : String) (obj : Object)
    (s : State p.World) where
  reload_changed-calls :
      (targets : List Target) (configs : List ReloaderConfig)
      → (reload_changed p r kind
          (get_name obj)
          (get_namespace obj)
          hash
          (targets, configs)
          (discovering p r kind (get_name obj) (get_namespace obj) s).1).1.calls
        ≡ (let (count, after) =
              reloading p r kind (get_name obj) (get_namespace obj) s targets hash in
            if ltb 0 count
            then enqueue_each p (get_namespace obj) kind (get_name obj) hash configs after.calls
            else after.calls)
  unfolding reload_changed
  reload_changed-calls targets configs =
      let (count, after) = reloading p r kind (get_name obj) (get_namespace obj) s targets hash in
      elim (Bool-cases (ltb 0 count)) [
        | inl e ↦ rw e (
            update_reloader_config_statuses-calls p (get_namespace obj) kind (get_name obj) hash
              configs after)
        | inr e ↦ rw e refl
      ]

  -- An update event for an object that is not ignored and whose hash is not the stored one: where the
  -- discovery succeeds, the calls are those of the reloads of the targets that pass the filter, then an
  -- item with the new hash for each config that was found, in their order, if one reload succeeded at
  -- least, and last the update of the object with the hash, however the reloads went. Where the
  -- discovery fails, its error is the result and nothing is called.
  pub reconcile_resource_update-calls :
      get_resource_data_and_hash p.sha256 obj ≡ ok hash
      → is_ignored obj ≡ false
      → hash ≢ get_stored_hash (get_annotations obj)
      → ((targets : List Target) (configs : List ReloaderConfig)
          → (discovering p r kind (get_name obj) (get_namespace obj) s).0 ≡ ok (targets, configs)
          → (reconcile_resource_update p r kind obj s).1.calls
            ≡ updated (with_hash hash obj)
              ∷ (let (count, after) =
                    reloading p r kind (get_name obj) (get_namespace obj) s targets hash in
                  if ltb 0 count
                  then enqueue_each p
                      (get_namespace obj)
                      kind
                      (get_name obj)
                      hash
                      configs
                      after.calls
                  else after.calls))
        × ((e : GoError)
            → (discovering p r kind (get_name obj) (get_namespace obj) s).0 ≡ err e
            → ((reconcile_resource_update p r kind obj s).0 ≡ some e)
              × ((reconcile_resource_update p r kind obj s).1.calls ≡ s.calls))
  unfolding reconcile_resource_update update_resource_hash
  reconcile_resource_update-calls h i n = (
    λ targets configs found.
        rw (i, h, different, found)
          (ap (λ calls. updated (with_hash hash obj) ∷ calls)
            (reload_changed-calls targets configs)),
    λ e failed.
        rw (i, h, different, failed)
          (refl, discover_targets-IsQuiet p kind (get_name obj) r (get_namespace obj) s),
  )
    where
      different : (hash == get_stored_hash (get_annotations obj)) ≡ false
      different = ground (arith, n, eq_iff hash (get_stored_hash (get_annotations obj)))

-- The configs whose table of hashes has the key.
abbrev pub tracking : String → List ReloaderConfig → List ReloaderConfig
tracking key [] = []
tracking key (config ∷ configs) = elim (lookup key config.status.watched_resource_hashes) [
  | none ↦ tracking key configs
  | some hash ↦ config ∷ tracking key configs
]

module _ (p : Platform) (r : Reconciler) (kind : String) (key : ObjectKey) (s : State p.World) where
  removals-calls :
      (configs : List ReloaderConfig) (t : State p.World)
      → (remove_reloader_config_status_entries p configs key.namespace kind key.name t).1.calls
        ≡ enqueue_each p key.namespace kind key.name ""
            (tracking (make_resource_key key.namespace kind key.name) configs)
            t.calls
  unfolding remove_reloader_config_status_entries
  removals-calls [] t = refl
  removals-calls (config ∷ configs) t =
      let t' : State p.World = record {
        world = p.queue_add (config_item key.namespace kind key.name "" config) t.world;
        calls = enqueued (config_item key.namespace kind key.name "" config) ∷ t.calls;
      } in
      ground (arith, removals-calls configs t, removals-calls configs t')

  -- A deletion: where the discovery succeeds, the handler returns no error, and the calls are those of
  -- the reloads of the targets that pass the filter and then, if one reload succeeded at least, an item
  -- with the empty hash for exactly the found configs whose table has the key of the resource, in
  -- their order. Where the discovery fails, its error is the result and nothing is called.
  pub reconcile_resource_deleted-calls :
      ((targets : List Target) (configs : List ReloaderConfig)
        → (discovering p r kind key.name key.namespace s).0 ≡ ok (targets, configs)
        → ((reconcile_resource_deleted p r kind key s).0 ≡ none)
          × ((reconcile_resource_deleted p r kind key s).1.calls ≡ (
              let (count, after) = delete_reloading p r kind key.name key.namespace s targets in
              if ltb 0 count
              then enqueue_each p key.namespace kind key.name ""
                  (tracking (make_resource_key key.namespace kind key.name) configs)
                  after.calls
              else after.calls)))
      × ((e : GoError)
          → (discovering p r kind key.name key.namespace s).0 ≡ err e
          → ((reconcile_resource_deleted p r kind key s).0 ≡ some e)
            × ((reconcile_resource_deleted p r kind key s).1.calls ≡ s.calls))
  unfolding reconcile_resource_deleted reload_deleted
  reconcile_resource_deleted-calls = (
    λ targets configs found.
        let (count, after) = delete_reloading p r kind key.name key.namespace s targets in
        elim (Bool-cases (ltb 0 count)) [
          | inl e ↦ rw found (refl, rw e (removals-calls configs after))
          | inr e ↦ rw found (refl, rw e refl)
        ],
    λ e failed. rw failed (refl, discover_targets-IsQuiet p kind key.name r key.namespace s),
  )
