-- ===== src/Controller/Discovery/Sources.antt =====
-- Where a discovery finds its configs and its annotated workloads.
use reloader_operator.Base.{
  String, true, false, List, [], ◌∷◌, ◌==◌, ◌≡◌, ◌⊎◌, inl, inr, arith, All, Some, Bool-cases, index,
}
use reloader_operator.Kube.{Result, ok, err}
use reloader_operator.Api.{ReloaderConfig}
use reloader_operator.Platform.{Platform, State}
use reloader_operator.Util.Names.{annotation_ignore}
use reloader_operator.Workload.Finder.{
  config_watches_resource, config_is_concerned, concerned_configs,
}
use reloader_operator.Controller.Discovery.{should_ignore_resource, without_ignoring}
use reloader_operator.Controller.Discovery.Merging.{Covers, should_ignore_resource_iff}

-- The value of a result, where it has one, satisfies `P`.
abbrev pub OnOk : {A : Type 0} → (A → Type 0) → Result A → Type 0
OnOk P (ok a) = P a
OnOk P (err e) = Unit

module _ (kind name namespace : String) where
  -- A config that may concern the resource: it is not annotated to be ignored, none of its rules
  -- ignores the resource, and it names the resource or reloads on all.
  abbrev pub MayConcern : ReloaderConfig → Type 0
  MayConcern config =
      ((index annotation_ignore config.annotations == "true") ≡ false)
      × (Some (Covers kind name namespace) config.spec.ignore_resources → ⊥)
      × ((config_watches_resource config kind name ≡ true) ⊎ (config.spec.auto_reload_all ≡ true))

  abbrev pub Found : ReloaderConfig → Type 0
  Found config =
      ((index annotation_ignore config.annotations == "true") ≡ false)
      × ((config_watches_resource config kind name ≡ true) ⊎ (config.spec.auto_reload_all ≡ true))

  config_is_concerned-Found :
      (p : Platform) (config : ReloaderConfig) (s : State p.World)
      → (config_is_concerned p kind name namespace config s).0 ≡ true
      → Found config
  unfolding config_is_concerned
  config_is_concerned-Found p config s h = ground arith

  pub concerned-Found :
      (p : Platform) (configs : List ReloaderConfig) (s : State p.World)
      → All Found (concerned_configs p kind name namespace configs s).0
  unfolding concerned_configs
  concerned-Found p [] s = tt
  concerned-Found p (config ∷ configs) s =
      elim (Bool-cases (config_is_concerned p kind name namespace config s).0) [
        | inl e ↦ rw e (
          config_is_concerned-Found p config s e,
          concerned-Found p configs (config_is_concerned p kind name namespace config s).1,
        )
        | inr e ↦
            rw e (concerned-Found p configs (config_is_concerned p kind name namespace config s).1)
      ]

  pub without_ignoring-MayConcern :
      (configs : List ReloaderConfig)
      → All Found configs
      → All MayConcern (without_ignoring kind name namespace configs)
  unfolding without_ignoring
  without_ignoring-MayConcern [] h = tt
  without_ignoring-MayConcern (c ∷ cs) ((a, b), h) =
      elim (Bool-cases (should_ignore_resource kind name namespace c)) [
        | inl e ↦ rw e (without_ignoring-MayConcern cs h)
        | inr e ↦ rw e (
          (a, (λ covers. cc ((should_ignore_resource_iff kind name namespace c).1 covers)), b),
          without_ignoring-MayConcern cs h,
        )
      ]
