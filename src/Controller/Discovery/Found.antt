-- ===== src/Controller/Discovery/Found.antt =====
-- Which of the configs that the client lists a discovery keeps.
use reloader_operator.Base.{
  String, Bool, if◌then◌else◌, true, false, List, [], ◌∷◌, ◌==◌, ◌≡◌, ◌⊎◌, refl, sym, subst, inl,
  inr, arith, All, All-implies, Some, Bool-cases, index,
}
use reloader_operator.Api.{ReloaderConfig}
use reloader_operator.Platform.{Platform, State}
use reloader_operator.Util.Names.{annotation_ignore}
use reloader_operator.Workload.Finder.{
  config_watches_resource, config_is_concerned, concerned_configs,
}
use reloader_operator.Controller.Discovery.{should_ignore_resource, without_ignoring}
use reloader_operator.Controller.Discovery.Filtering.{IsSublist, keep, drop, empty}
use reloader_operator.Controller.Discovery.Merging.{Covers, should_ignore_resource_iff}

module _ (kind name namespace : String) where
  -- A config that is not to be found: it is annotated to be ignored, it does not name the resource, or a
  -- rule of it ignores the resource.
  abbrev pub Excluded : ReloaderConfig → Type 0
  Excluded config =
      ((index annotation_ignore config.annotations == "true") ≡ true)
      ⊎ (config_watches_resource config kind name ≡ false)
      ⊎ Some (Covers kind name namespace) config.spec.ignore_resources

  -- Every other config of the list is found.
  abbrev pub NoneMissed : List ReloaderConfig → List ReloaderConfig → Type 0
  NoneMissed listed configs = All (λ c. Excluded c ⊎ Some (λ found. found ≡ c) configs) listed

  not_concerned-Excluded :
      (p : Platform) (config : ReloaderConfig) (s : State p.World)
      → (config_is_concerned p kind name namespace config s).0 ≡ false
      → Excluded config
  unfolding config_is_concerned
  not_concerned-Excluded p config s h =
      elim (Bool-cases (index annotation_ignore config.annotations == "true")) [
        | inl e ↦ inl e
        | inr e ↦ elim (Bool-cases (config_watches_resource config kind name)) [
          | inl e' ↦ absurd (ground arith)
          | inr e' ↦ inr (inl e')
        ]
      ]

  later :
      (c : ReloaderConfig) (listed configs : List ReloaderConfig)
      → NoneMissed listed configs
      → NoneMissed listed (c ∷ configs)
  later c listed configs h =
      All-implies (λ x. Excluded x ⊎ Some (λ found. found ≡ x) configs)
        (λ x. Excluded x ⊎ Some (λ found. found ≡ x) (c ∷ configs)) listed (λ x k. after k) h
    where
      after :
          {x : ReloaderConfig}
          → Excluded x ⊎ Some (λ found. found ≡ x) configs
          → Excluded x ⊎ Some (λ found. found ≡ x) (c ∷ configs)
      after (inl e) = inl e
      after (inr w) = inr (inr w)

  -- The configs are in the order of the list, and none is missed.
  abbrev pub Kept : List ReloaderConfig → List ReloaderConfig → Type 0
  Kept listed configs = IsSublist configs listed × NoneMissed listed configs

  ignoring :
      (c : ReloaderConfig) (cs : List ReloaderConfig)
      → should_ignore_resource kind name namespace c ≡ true
      → without_ignoring kind name namespace (c ∷ cs) ≡ without_ignoring kind name namespace cs
  unfolding without_ignoring
  ignoring c cs e = rw e refl

  not_ignoring :
      (c : ReloaderConfig) (cs : List ReloaderConfig)
      → should_ignore_resource kind name namespace c ≡ false
      → without_ignoring kind name namespace (c ∷ cs) ≡ c ∷ without_ignoring kind name namespace cs
  unfolding without_ignoring
  not_ignoring c cs e = rw e refl

  kept_config :
      (c : ReloaderConfig) (cs found : List ReloaderConfig) (concerned : Bool)
      → (concerned ≡ false → Excluded c)
      → Kept cs (without_ignoring kind name namespace found)
      → Kept
          (c ∷ cs)
          (without_ignoring kind name namespace (if concerned then c ∷ found else found))
  kept_config c cs found false excluded (sublist, complete) =
      (drop sublist, (inl (excluded refl), complete))
  kept_config c cs found true excluded (sublist, complete) =
      elim (Bool-cases (should_ignore_resource kind name namespace c)) [
        | inl e ↦
            let covered = (should_ignore_resource_iff kind name namespace c).0 e in
            subst (Kept (c ∷ cs)) (sym (ignoring c found e))
              (drop sublist, (inl (inr (inr covered)), complete))
        | inr e ↦
            subst (Kept (c ∷ cs)) (sym (not_ignoring c found e))
              (keep sublist, (inr (inl refl), later c cs _ complete))
      ]

  pub kept_configs :
      (p : Platform) (listed : List ReloaderConfig) (s : State p.World)
      → Kept listed (
          without_ignoring kind name namespace (concerned_configs p kind name namespace listed s).0)
  unfolding concerned_configs without_ignoring
  kept_configs p [] s = (empty, tt)
  kept_configs p (c ∷ cs) s =
      let s' = (config_is_concerned p kind name namespace c s).1 in
      kept_config c cs (concerned_configs p kind name namespace cs s').0
        (config_is_concerned p kind name namespace c s).0 (not_concerned-Excluded p c s)
        (kept_configs p cs s')
