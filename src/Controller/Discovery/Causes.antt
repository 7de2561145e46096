-- ===== src/Controller/Discovery/Causes.antt =====
-- Every target of a discovery has its cause, and every cause its targets.
use reloader_operator.Base.{String, List, ◌≡◌, ◌⊎◌, All, Some, StringMap}
use reloader_operator.Kube.{Result, ok, Workload, WorkloadType}
use reloader_operator.Api.{ReloaderConfig, TargetWorkload}
use reloader_operator.Platform.{Platform, State}
use reloader_operator.Workload.Target.{Target}
use reloader_operator.Workload.Finder.{find_reloader_configs_watching_resource}
use reloader_operator.Controller.Reconciler.{Reconciler}
use reloader_operator.Controller.Discovery.{
  without_ignoring, config_target, resource_annotations_of,
}
use reloader_operator.Controller.Discovery.Sources.{OnOk, MayConcern}
use reloader_operator.Controller.Discovery.Found.{Kept}
use reloader_operator.Controller.Discovery.Annotated.{listing, AskedBy, NoneOmitted, Annotated}

module _ (kind name namespace : String) (r : Reconciler) where
  -- A config of the list states the target.
  abbrev pub Stated : List ReloaderConfig → Target → Type 0
  Stated configs target =
      Some (λ c. Some (λ stated. target ≡ config_target r c stated) c.spec.targets) configs

  -- Each target of a config of the list is in `targets`.
  abbrev pub Complete : List ReloaderConfig → List Target → Type 0
  Complete configs targets =
      All
        (λ c.
          All (λ stated. Some (λ target. target ≡ config_target r c stated) targets) c.spec.targets)
        configs

  -- The target that the config states is in the list.
  abbrev Has : List Target → ReloaderConfig → TargetWorkload → Type 0
  Has targets c stated = Some (λ target. target ≡ config_target r c stated) targets

  module _ (p : Platform) (s : State p.World) where
    abbrev searched : Result (List ReloaderConfig) × State p.World
    searched = find_reloader_configs_watching_resource p kind name namespace s

    -- The annotations of the resource as they are read after the configs, and the state then.
    abbrev pub described : StringMap × State p.World
    described = resource_annotations_of p kind name namespace searched.1

    -- What the client answers if it is asked for the workloads then.
    abbrev pub answers : WorkloadType → Result (List Workload)
    answers = listing p namespace described.1.world

    -- The configs are the ones of the client's list that are to be found.
    abbrev pub ConfigsFound : List ReloaderConfig → Type 0
    ConfigsFound configs =
        (listed : List ReloaderConfig) × ((p.list_configs namespace s.world).0 ≡ ok listed)
        × Kept kind name namespace listed configs
        × All (MayConcern kind name namespace) configs

    -- The targets are the ones that the configs state, and the workloads of the client's lists whose
    -- annotations ask for the reload.
    abbrev pub TargetsFound : List ReloaderConfig → List Target → Type 0
    TargetsFound configs targets =
        Complete configs targets
        × (ws : WorkloadType → List Workload) × ((t : WorkloadType) → answers t ≡ ok (ws t))
        × All
            (λ target.
              Stated configs target
              ⊎ ((t : WorkloadType) × AskedBy kind name described.0 t (ws t) target))
            targets
        × ((t : WorkloadType) → NoneOmitted kind name described.0 t (ws t) targets)

    abbrev pub IsDiscovery : List Target × List ReloaderConfig → Type 0
    IsDiscovery (targets, configs) = ConfigsFound configs × TargetsFound configs targets

    -- The state after the configs were listed.
    abbrev listed_at : State p.World
    listed_at = record s { world = (p.list_configs namespace s.world).1 }

    abbrev SearchFound : Result (List ReloaderConfig) → Type 0
    SearchFound = OnOk (λ configs. ConfigsFound (without_ignoring kind name namespace configs))
