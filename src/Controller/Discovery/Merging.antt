-- ===== src/Controller/Discovery/Merging.antt =====
-- The targets that come out of the configs and the annotations, and the rules that ignore.
use reloader_operator.Base.{
  All-append, ℕ, ◌+◌, String, true, List, [], ◌∷◌, none, ◌≡◌, ◌≢◌, ◌↔◌, ◌⊎◌, refl, arith, eq_iff,
  map, length, length-append, All, Some,
}
use reloader_operator.Api.{ReloaderConfig, TargetWorkload, ResourceReference}
use reloader_operator.Util.Strategies.{
  get_default_rollout_strategy-ne-nil, get_default_reload_strategy-ne-nil,
}
use reloader_operator.Workload.Target.{Target}
use reloader_operator.Controller.Reconciler.{Reconciler}
use reloader_operator.Controller.Discovery.{
  ignores, any_ignores, should_ignore_resource, config_target, config_targets, merge_targets,
}

-- The number of targets that the configs state.
abbrev pub stated : List ReloaderConfig → ℕ
stated [] = 0
stated (c ∷ cs) = length c.spec.targets + stated cs

length-map-targets :
    (r : Reconciler) (c : ReloaderConfig) (ts : List TargetWorkload)
    → length (map (config_target r c) ts) ≡ length ts
length-map-targets r c [] = refl
length-map-targets r c (t ∷ ts) = omega (arith, length-map-targets r c ts)

length-config_targets :
    (r : Reconciler) (cs : List ReloaderConfig) → length (config_targets r cs) ≡ stated cs
unfolding config_targets
length-config_targets r [] = refl
length-config_targets r (c ∷ cs) = omega (
  arith,
  length-append (map (config_target r c) c.spec.targets) (config_targets r cs),
  length-map-targets r c c.spec.targets,
  length-config_targets r cs,
)

-- No target is lost or doubled: there are as many as the configs state and the annotations give.
pub length-merge_targets :
    (r : Reconciler) (configs : List ReloaderConfig) (annotated : List Target)
    → length (merge_targets r configs annotated) ≡ stated configs + length annotated
unfolding merge_targets
length-merge_targets r configs annotated =
    omega
      (arith, length-append (config_targets r configs) annotated, length-config_targets r configs)

-- A target that is ready for the updater: it knows its config, and names both strategies.
abbrev pub IsResolved : Target → Type 0
IsResolved t = (t.config ≢ none) × (t.rollout_strategy ≢ "") × (t.reload_strategy ≢ "")

config_target-IsResolved :
    (r : Reconciler) (c : ReloaderConfig) (t : TargetWorkload) → IsResolved (config_target r c t)
unfolding config_target
config_target-IsResolved r c t = (
  λ e. cc,
  get_default_rollout_strategy-ne-nil t.rollout_strategy _,
  get_default_reload_strategy-ne-nil t.reload_strategy _,
)

map_target-IsResolved :
    (r : Reconciler) (c : ReloaderConfig) (ts : List TargetWorkload)
    → All IsResolved (map (config_target r c) ts)
map_target-IsResolved r c [] = tt
map_target-IsResolved r c (t ∷ ts) = (config_target-IsResolved r c t, map_target-IsResolved r c ts)

-- Every target that comes from a config carries it, and has a rollout and a reload strategy, also
-- where the target, the config and the global flags leave them empty.
pub config_targets-IsResolved :
    (r : Reconciler) (configs : List ReloaderConfig) → All IsResolved (config_targets r configs)
unfolding config_targets
config_targets-IsResolved r [] = tt
config_targets-IsResolved r (c ∷ cs) =
    All-append IsResolved (map (config_target r c) c.spec.targets) (config_targets r cs)
      (map_target-IsResolved r c c.spec.targets) (config_targets-IsResolved r cs)

module _ (kind name namespace : String) where
  -- The rule names the resource, in its namespace or in all.
  abbrev pub Covers : ResourceReference → Type 0
  Covers rule =
      (rule.kind ≡ kind)
      × (rule.name ≡ name)
      × ((rule.namespace ≡ "") ⊎ (rule.namespace ≡ namespace))

  ignores_iff : (rule : ResourceReference) → (ignores kind name namespace rule ≡ true) ↔ Covers rule
  unfolding ignores
  ignores_iff rule = ground (
    arith,
    eq_iff rule.kind kind,
    eq_iff rule.name name,
    eq_iff rule.namespace "",
    eq_iff rule.namespace namespace,
  )

  any_ignores_iff :
      (rules : List ResourceReference)
      → (any_ignores kind name namespace rules ≡ true) ↔ Some Covers rules
  unfolding any_ignores
  any_ignores_iff [] = (λ e. cc, λ e. absurd e)
  any_ignores_iff (rule ∷ rules) = ground (arith, ignores_iff rule, any_ignores_iff rules)

  -- A config ignores a resource exactly when one of its rules names it, in its namespace or with no
  -- namespace at all.
  pub should_ignore_resource_iff :
      (config : ReloaderConfig)
      → (should_ignore_resource kind name namespace config ≡ true)
        ↔ Some Covers config.spec.ignore_resources
  unfolding should_ignore_resource
  should_ignore_resource_iff config = any_ignores_iff config.spec.ignore_resources
