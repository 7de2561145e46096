-- ===== src/Controller/Reconcile/Settled.antt =====
-- Requests for a Secret or ConfigMap that the handlers have written.
use reloader_operator.Base.{
  String, false, none, ◌≡◌, ◌≢◌, ◌⊎◌, refl, ap, arith, eq_iff, assign, index, index-assign_self,
  StringMap, ◌==◌, ◌&&◌,
}
use reloader_operator.Kube.{ok, ObjectKey, Secret, ConfigMap, secret, config_map}
use reloader_operator.Platform.{Platform, State}
use reloader_operator.Util.Names.{annotation_last_hash, kind_secret, kind_config_map}
use reloader_operator.Util.Hash.{calculate_hash, merge_data_maps, get_resource_data_and_hash}
use reloader_operator.Controller.Reconciler.{Reconciler}
use reloader_operator.Controller.Events.{reconcile_secret, reconcile_config_map}
use reloader_operator.Controller.Events.Changes.{update_idempotent}
use reloader_operator.Controller.Reconcile.{
  reconcile_found_secret, reconcile_found_config_map, reconcile_as_config_map, reconcile_as_secret,
  reconcile,
}
use reloader_operator.Controller.Reconcile.Dispatch.{
  after_config, after_secret, after_config_map, IsNotFound, written,
}

-- The ConfigMap as the handlers write it.
abbrev pub written_map : Platform → ConfigMap → ConfigMap
written_map p c = record c {
  annotations =
      assign annotation_last_hash
        (calculate_hash p.sha256 (merge_data_maps c.contents c.binary_data)) c.annotations;
}

-- The hash tells that the object was met before: it is not empty, or creations are not told apart.
abbrev pub Marks : Reconciler → String → Type 0
Marks r hash = (hash ≢ "") ⊎ (r.reload_on_create ≡ false)

module _ (p : Platform) (r : Reconciler) where
  not_created :
      (hash : String) (annotations : StringMap)
      → Marks r hash
      → (index annotation_last_hash (assign annotation_last_hash hash annotations) == "")
          && r.reload_on_create
        ≡ false
  not_created hash annotations h =
      rw (index-assign_self annotation_last_hash hash annotations)
        (ground (arith, h, eq_iff hash ""))

  found_secret-settled :
      (x : Secret) (t : State p.World)
      → Marks r (calculate_hash p.sha256 x.contents)
      → reconcile_found_secret p r (written p x) t ≡ (none, t)
  unfolding reconcile_found_secret reconcile_secret get_resource_data_and_hash
  found_secret-settled x t h =
      rw (not_created (calculate_hash p.sha256 x.contents) x.annotations h)
        (update_idempotent p r kind_secret (secret x) (calculate_hash p.sha256 x.contents) refl t)

  found_config_map-settled :
      (x : ConfigMap) (t : State p.World)
      → Marks r (calculate_hash p.sha256 (merge_data_maps x.contents x.binary_data))
      → reconcile_found_config_map p r (written_map p x) t ≡ (none, t)
  unfolding reconcile_found_config_map reconcile_config_map get_resource_data_and_hash
  found_config_map-settled x t h =
      let hash = calculate_hash p.sha256 (merge_data_maps x.contents x.binary_data) in
      rw (not_created hash x.annotations h)
        (update_idempotent p r kind_config_map (config_map x) hash refl t)

  module _ (key : ObjectKey) (s : State p.World) where
    -- A Secret or ConfigMap that the handlers have written is settled: where no ReloaderConfig has the
    -- key of a request, and the Secret that is fetched for it has the hash of its data in its
    -- annotation, or there is none and the ConfigMap that is fetched has, the request ends without an
    -- error and has called nothing that leaves a mark. The hash must not be empty, unless reloads on
    -- creation are off.
    pub reconcile-settled :
        IsNotFound p r key s (p.get_config key s.world).0
        → ((x : Secret)
            → (p.get_secret key (after_config p r key s).world).0 ≡ ok (written p x)
            → Marks r (calculate_hash p.sha256 x.contents)
            → ((reconcile p r key s).0 ≡ none) × ((reconcile p r key s).1.calls ≡ s.calls))
          × ((x : ConfigMap)
              → IsNotFound p r key s (p.get_secret key (after_config p r key s).world).0
              → (p.get_config_map key (after_secret p r key s).world).0 ≡ ok (written_map p x)
              → Marks r (calculate_hash p.sha256 (merge_data_maps x.contents x.binary_data))
              → ((reconcile p r key s).0 ≡ none) × ((reconcile p r key s).1.calls ≡ s.calls))
    unfolding reconcile reconcile_as_secret reconcile_as_config_map
    reconcile-settled (e, missing, not_found) = (
      λ x fetched h.
          let settled = found_secret-settled x (after_secret p r key s) h in
          (
            ground (arith, missing, not_found, fetched, ap (λ y. y.0) settled),
            ground (arith, missing, not_found, fetched, ap (λ y. y.1.calls) settled),
          ),
      λ x (e', missing', not_found') fetched h.
          let settled = found_config_map-settled x (after_config_map p r key s) h in
          (
            ground
                (arith, missing, not_found, missing', not_found', fetched, ap (λ y. y.0) settled),
            ground (
              arith,
              missing,
              not_found,
              missing',
              not_found',
              fetched,
              ap (λ y. y.1.calls) settled,
            ),
          ),
    )
