-- ===== src/Controller/Events/Changes.antt =====
-- When a change is acted on, and that the hash of a change that was acted on is written.
use reloader_operator.Base.{
  false, none, some, ◌≡◌, ◌≢◌, refl, String, arith, inl, inr, Bool-cases, assign, index-assign_self,
  eq_refl, eq_iff,
}
use reloader_operator.Kube.{GoError, ok, err, Object, get_annotations, get_name, get_namespace}
use reloader_operator.Platform.{Platform, State, latest, updated}
use reloader_operator.Util.Names.{annotation_last_hash}
use reloader_operator.Util.Hash.{get_resource_data_and_hash}
use reloader_operator.Controller.Reconciler.{Reconciler}
use reloader_operator.Controller.Discovery.{discover_targets}
use reloader_operator.Controller.Discovery.Quiet.{discover_targets-IsQuiet}
use reloader_operator.Controller.Events.{
  get_stored_hash, with_hash, is_ignored, update_resource_hash, reconcile_resource_update,
}

module _ (p : Platform) (r : Reconciler) (kind : String) (obj : Object) (hash : String) where
  hash-with_hash :
      get_resource_data_and_hash p.sha256 (with_hash hash obj)
      ≡ get_resource_data_and_hash p.sha256 obj
  unfolding get_resource_data_and_hash
  hash-with_hash = ground arith

  annotations-with_hash :
      get_annotations (with_hash hash obj) ≡ assign annotation_last_hash hash (get_annotations obj)
  annotations-with_hash = ground arith

  stored-with_hash : get_stored_hash (get_annotations (with_hash hash obj)) ≡ hash
  unfolding get_stored_hash
  stored-with_hash =
      rw annotations-with_hash (index-assign_self annotation_last_hash hash (get_annotations obj))

  -- Handling is idempotent: an update event for the object as the handler has written it, with the
  -- hash of its data in the annotation, changes nothing, whatever the state in which it arrives.
  pub update_idempotent :
      get_resource_data_and_hash p.sha256 obj ≡ ok hash
      → (s : State p.World) → reconcile_resource_update p r kind (with_hash hash obj) s ≡ (none, s)
  unfolding reconcile_resource_update
  update_idempotent h s = elim (Bool-cases (is_ignored (with_hash hash obj))) [
    | inl e ↦ rw e refl
    | inr e ↦ rw (e, hash-with_hash, h, stored-with_hash, eq_refl hash) refl
  ]

  -- A change that is acted on has its hash written last, however the reloads went: if the handler
  -- returns no error for an object that is not ignored and whose hash is not the stored one, the last
  -- call that it made is the update of the object with the new hash.
  pub update_writes_hash :
      (s : State p.World)
      → get_resource_data_and_hash p.sha256 obj ≡ ok hash
      → is_ignored obj ≡ false
      → hash ≢ get_stored_hash (get_annotations obj)
      → (reconcile_resource_update p r kind obj s).0 ≡ none
      → latest (reconcile_resource_update p r kind obj s).1.calls
        ≡ some (updated (with_hash hash obj))
  unfolding reconcile_resource_update update_resource_hash
  update_writes_hash s h i n e = ground (arith, eq_iff hash (get_stored_hash (get_annotations obj)))

  -- If the discovery of targets fails, the handler returns that error and has called nothing that
  -- leaves a mark, so the stored hash stays and the change is met again.
  pub update_discovery_failed :
      (s : State p.World) {e : GoError}
      → get_resource_data_and_hash p.sha256 obj ≡ ok hash
      → is_ignored obj ≡ false
      → hash ≢ get_stored_hash (get_annotations obj)
      → (discover_targets p r kind (get_name obj) (get_namespace obj) s).0 ≡ err e
      → ((reconcile_resource_update p r kind obj s).0 ≡ some e)
        × ((reconcile_resource_update p r kind obj s).1.calls ≡ s.calls)
  unfolding reconcile_resource_update
  update_discovery_failed s h i n e = ground (
    arith,
    eq_iff hash (get_stored_hash (get_annotations obj)),
    discover_targets-IsQuiet p kind (get_name obj) r (get_namespace obj) s,
  )
