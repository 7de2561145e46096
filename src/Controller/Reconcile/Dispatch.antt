-- ===== src/Controller/Reconcile/Dispatch.antt =====
-- Which handler a request reaches.
use reloader_operator.Base.{
  true, false, none, some, [], ◌≡◌, ◌⊎◌, refl, arith, inl, inr, assign, index-assign_self,
}
use reloader_operator.Kube.{GoError, Result, err, ObjectKey, Secret}
use reloader_operator.Platform.{Platform, State}
use reloader_operator.Util.Names.{annotation_last_hash, kind_secret, kind_config_map}
use reloader_operator.Util.Hash.{calculate_hash}
use reloader_operator.Controller.Reconciler.{Reconciler}
use reloader_operator.Controller.Discovery.{discover_targets}
use reloader_operator.Controller.Discovery.Quiet.{discover_targets-IsQuiet}
use reloader_operator.Controller.Events.{reconcile_secret_created}
use reloader_operator.Controller.Reconcile.{
  anything_found, reconcile_deleted_as_config_map, reconcile_deleted_as_secret, reconcile_deleted,
  reconcile_found_secret, reconcile_as_config_map, reconcile_as_secret, reconcile,
}

module _ (p : Platform) (r : Reconciler) (key : ObjectKey) (s : State p.World) where
  abbrev pub after_config : State p.World
  after_config = record s { world = (p.get_config key s.world).1 }

  abbrev pub after_secret : State p.World
  after_secret = record s { world = (p.get_secret key after_config.world).1 }

  abbrev pub after_config_map : State p.World
  after_config_map = record s { world = (p.get_config_map key after_secret.world).1 }

  abbrev pub IsNotFound : {A : Type 0} → Result A → Type 0
  IsNotFound r = (e : GoError) × (r ≡ err e) × (e.is_not_found ≡ true)

  -- A request whose key no ReloaderConfig, Secret or ConfigMap has does nothing that leaves a mark and
  -- returns no error, if reloads on deletion are off, or if they are on and the discovery finds
  -- nothing, or fails, for a Secret and for a ConfigMap of that name.
  pub reconcile-nothing_found :
      IsNotFound (p.get_config key s.world).0
      → IsNotFound (p.get_secret key after_config.world).0
      → IsNotFound (p.get_config_map key after_secret.world).0
      → (r.reload_on_delete ≡ false)
        ⊎ (((s : State p.World)
              → anything_found (discover_targets p r kind_secret key.name key.namespace s).0
                ≡ false)
            × ((s : State p.World)
                → anything_found (discover_targets p r kind_config_map key.name key.namespace s).0
                  ≡ false))
      → ((reconcile p r key s).0 ≡ none) × ((reconcile p r key s).1.calls ≡ s.calls)
  unfolding reconcile reconcile_as_secret reconcile_as_config_map reconcile_deleted
      reconcile_deleted_as_secret reconcile_deleted_as_config_map
  reconcile-nothing_found c x m (inl off) = ground arith
  reconcile-nothing_found c x m (inr (no_secret, no_config_map)) =
      let s₁ = (discover_targets p r kind_secret key.name key.namespace after_config_map).1 in
      ground (
        arith,
        no_secret after_config_map,
        no_config_map s₁,
        discover_targets-IsQuiet p kind_secret key.name r key.namespace after_config_map,
        discover_targets-IsQuiet p kind_config_map key.name r key.namespace s₁,
      )

-- The Secret as the handler of its creation writes it.
abbrev pub written : Platform → Secret → Secret
written p s = record s {
  annotations = assign annotation_last_hash (calculate_hash p.sha256 s.contents) s.annotations;
}

empty_hash :
    (p : Platform) (s : Secret)
    → (s.contents ≡ none) ⊎ (s.contents ≡ some [])
    → calculate_hash p.sha256 s.contents ≡ ""
unfolding calculate_hash
empty_hash p s (inl e) = rw e refl
empty_hash p s (inr e) = rw e refl

-- A Secret without data looks newly created for ever: where reloads on creation are on, the Secret as
-- the handler of a creation writes it is handled as a creation again, with all its reloads.
pub empty_secret_created_again :
    (p : Platform) (r : Reconciler) (s : Secret) (state : State p.World)
    → (s.contents ≡ none) ⊎ (s.contents ≡ some [])
    → r.reload_on_create ≡ true
    → reconcile_found_secret p r (written p s) state
      ≡ reconcile_secret_created p r (written p s) state
unfolding reconcile_found_secret
empty_secret_created_again p r s state empty on =
    rw
      (
        index-assign_self annotation_last_hash (calculate_hash p.sha256 s.contents) s.annotations,
        empty_hash p s empty,
        on,
      )
      refl
