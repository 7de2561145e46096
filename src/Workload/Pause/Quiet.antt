-- ===== src/Workload/Pause/Quiet.antt =====
-- The check for a pause leaves no mark.
use reloader_operator.Base.{
  Option, none, some, List, [], ◌∷◌, refl, inl, inr, String, arith, lookup,
}
use reloader_operator.Kube.{Result, ok, err, Object, get_annotations, Result-cases}
use reloader_operator.Util.Names.{annotation_last_reload}
use reloader_operator.Util.Durations.{parse_duration}
use reloader_operator.Api.{ReloaderConfig, TargetWorkloadStatus, Duration}
use reloader_operator.Platform.{Platform, on_ok}
use reloader_operator.Platform.Quiet.{IsQuiet}
use reloader_operator.Util.Workloads.{get_workload}
use reloader_operator.Util.Workloads.Quiet.{get_workload-IsQuiet}
use reloader_operator.Workload.Target.{Target}
use reloader_operator.Workload.Pause.{
  is_paused_in_status, is_paused_since, is_paused_within, is_paused,
}

module _ (p : Platform) where
  is_paused_in_status-IsQuiet :
      (target : Target) (entries : List TargetWorkloadStatus)
      → IsQuiet (is_paused_in_status p target entries)
  unfolding is_paused_in_status
  is_paused_in_status-IsQuiet target [] s = refl
  is_paused_in_status-IsQuiet target (e ∷ es) s = ground (
    arith,
    is_paused_in_status-IsQuiet target es s,
    is_paused_in_status-IsQuiet target es (record s { world = (p.now s.world).1 }),
  )

  is_paused_since-IsQuiet :
      (duration : Duration) (stamp : Option String) → IsQuiet (is_paused_since p duration stamp)
  unfolding is_paused_since
  is_paused_since-IsQuiet duration none s = refl
  is_paused_since-IsQuiet duration (some t) s = ground arith

  stamp_of-IsQuiet :
      (duration : Duration) (fetched : Result Object)
      → IsQuiet (
          on_ok fetched
            λ obj. is_paused_since p duration (lookup annotation_last_reload (get_annotations obj)))
  stamp_of-IsQuiet duration (ok obj) s = is_paused_since-IsQuiet duration _ s
  stamp_of-IsQuiet duration (err e) s = refl

  is_paused_within-IsQuiet :
      (target : Target) (duration : Duration) (config : Option ReloaderConfig)
      → IsQuiet (is_paused_within p target duration config)
  unfolding is_paused_within
  is_paused_within-IsQuiet target duration (some c) s =
      is_paused_in_status-IsQuiet target c.status.target_status s
  is_paused_within-IsQuiet target duration none s =
      let (fetched, s') = get_workload p target.kind target.name target.namespace s in
      ground (
        arith,
        get_workload-IsQuiet p target.kind target.name target.namespace s,
        stamp_of-IsQuiet duration fetched s',
      )

  -- Asking whether a target is paused makes no call that leaves a mark.
  pub is_paused-IsQuiet : (target : Target) → IsQuiet (is_paused p target)
  unfolding is_paused
  is_paused-IsQuiet target s = elim (Result-cases (parse_duration p target.pause_period)) [
    | inl (d, e) ↦ rw e (ground (arith, is_paused_within-IsQuiet target d target.config s))
    | inr (x, e) ↦ rw e (ground arith)
  ]
