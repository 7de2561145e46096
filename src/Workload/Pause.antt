-- ===== src/Workload/Pause.antt =====
-- internal/pkg/workload/updater.go: pause periods.
pub mod Stamped
pub mod Quiet
use reloader_operator.Base.{
  String, Bool, true, false, Option, none, some, List, [], ◌∷◌, ◌==◌, ◌&&◌, ltb, if◌then◌else◌,
  lookup,
}
use reloader_operator.Kube.{Result, ok, err, get_annotations}
use reloader_operator.Api.{ReloaderConfig, Time, Duration, TargetWorkloadStatus, add_duration}
use reloader_operator.Platform.{Platform, M, pure, read, ◌>>=◌, on_ok}
use reloader_operator.Util.Names.{annotation_last_reload}
use reloader_operator.Util.Durations.{parse_duration}
use reloader_operator.Util.Workloads.{get_workload}
use reloader_operator.Workload.Target.{Target}
use reloader_operator.Workload.Rollout.{wrap_result}

-- `t.After(u)`
abbrev pub is_after : Time → Time → Bool
is_after t u = ltb u t

-- The entry is the one of the target.
abbrev pub is_entry_of : Target → TargetWorkloadStatus → Bool
is_entry_of target status =
    status.kind == target.kind && status.name == target.name && status.namespace == target.namespace

-- `PausedUntil` of an entry of the target, where it is set
abbrev pub paused_until_of : Target → TargetWorkloadStatus → Option Time
paused_until_of target status = if is_entry_of target status then status.paused_until else none

module _ (p : Platform) where
  -- The loop over the status of the config.
  unfoldable pub is_paused_in_status : Target → List TargetWorkloadStatus → M p.World Bool
  is_paused_in_status target [] = pure false
  is_paused_in_status target (status ∷ target_status) =
      let rest = is_paused_in_status target target_status in
      elim (paused_until_of target status) [
        | none ↦ rest
        | some until ↦ do now ← read p.now; if is_after until now then pure true else rest
      ]

  -- The last reload that the annotation tells: the pause goes on from there.
  unfoldable pub is_paused_since : Duration → Option String → M p.World (Result Bool)
  is_paused_since duration none = pure (ok false)
  is_paused_since duration (some last_reload_str) = elim (p.parse_time last_reload_str) [
    | err e ↦ pure (ok false)
    | ok last_reload ↦ do
      now ← read p.now
      pure (ok (is_after (add_duration last_reload duration) now))
  ]

  -- The pause of a target with or without a config, once its period is parsed.
  unfoldable pub is_paused_within :
      Target → Duration → Option ReloaderConfig → M p.World (Result Bool)
  is_paused_within target duration (some config) = do
    paused ← is_paused_in_status target config.status.target_status
    pure (ok paused)
  is_paused_within target duration none = do
    fetched ← get_workload p target.kind target.name target.namespace
    on_ok fetched
        λ obj. is_paused_since duration (lookup annotation_last_reload (get_annotations obj))

  unfoldable pub is_paused : Target → M p.World (Result Bool)
  is_paused target =
      if target.pause_period == ""
      then pure (ok false)
      else on_ok (wrap_result ("invalid pause period" ∷ []) (parse_duration p target.pause_period))
          λ duration. is_paused_within target duration target.config
