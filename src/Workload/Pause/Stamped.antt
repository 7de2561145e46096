-- ===== src/Workload/Pause/Stamped.antt =====
-- The pause of a workload with annotations, from its stamp.
use reloader_operator.Base.{
  String, Option, none, some, ◌∷◌, ◌≡◌, ◌≢◌, ◌∙◌, ap, sym, refl, arith, eq_iff, lookup, assign,
  lookup-assign_self, StringMap,
}
use reloader_operator.Kube.{
  ok, Object, workload, secret, config_map, get_annotations, set_annotations,
}
use reloader_operator.Api.{Time, Duration, ReloaderConfig, add_duration}
use reloader_operator.Platform.{Platform, State, Call, updated, latest}
use reloader_operator.Util.Names.{annotation_last_reload}
use reloader_operator.Util.Durations.{parse_duration}
use reloader_operator.Util.Workloads.{get_workload}
use reloader_operator.Workload.Target.{Target}
use reloader_operator.Workload.Updater.{set_last_reload_annotation}
use reloader_operator.Workload.Pause.{is_after, is_paused, is_paused_within, is_paused_since}

get-set_annotations : (m : StringMap) (obj : Object) → get_annotations (set_annotations m obj) ≡ m
get-set_annotations m (workload t w) = refl
get-set_annotations m (secret s) = refl
get-set_annotations m (config_map c) = refl

abbrev object_written : Object → Option Call → Object
object_written default (some (updated obj)) = obj
object_written default _ = default

module _ (p : Platform) (target : Target) (obj : Object) (s : State p.World) where
  -- The state after the fetch of the stamp, and the instant that it writes.
  abbrev pub stamping : State p.World
  stamping = (get_workload p target.kind target.name target.namespace s).1

  abbrev pub stamped_at : Time
  stamped_at = (p.now stamping.world).0

  abbrev pub stamped : Object
  stamped =
      set_annotations
        (assign annotation_last_reload (p.format_time stamped_at) (get_annotations obj)) obj

  pub set_last_reload_annotation-stamped :
      (get_workload p target.kind target.name target.namespace s).0 ≡ ok obj
      → (set_last_reload_annotation p target s).1.calls ≡ updated stamped ∷ stamping.calls
  unfolding set_last_reload_annotation
  set_last_reload_annotation-stamped h = rw h refl

  lookup-stamped :
      lookup annotation_last_reload (get_annotations stamped) ≡ some (p.format_time stamped_at)
  lookup-stamped =
      rw
        (get-set_annotations
          (assign annotation_last_reload (p.format_time stamped_at) (get_annotations obj)) obj)
        (lookup-assign_self annotation_last_reload (p.format_time stamped_at) (get_annotations obj))

module _ (p : Platform) (target : Target) (obj seen : Object) (d : Duration) (last_reload : Time)
    (s s' : State p.World) where
  -- The state of the later check once it has fetched the workload, and the instant that it reads.
  abbrev pub checking : State p.World
  checking = (get_workload p target.kind target.name target.namespace s').1

  abbrev pub checked_at : Time
  checked_at = (p.now checking.world).0

  paused_since :
      (text : Option String)
      → text ≡ some (p.format_time (stamped_at p target obj s))
      → p.parse_time (p.format_time (stamped_at p target obj s)) ≡ ok last_reload
      → (is_paused_since p d text checking).0
        ≡ ok (is_after (add_duration last_reload d) checked_at)
  unfolding is_paused_since
  paused_since text e h = rw e (rw (h, is_paused_since) refl)

  paused_within :
      (o : Option ReloaderConfig)
      → o ≡ none
      → (get_workload p target.kind target.name target.namespace s').0 ≡ ok seen
      → lookup annotation_last_reload (get_annotations seen)
        ≡ some (p.format_time (stamped_at p target obj s))
      → p.parse_time (p.format_time (stamped_at p target obj s)) ≡ ok last_reload
      → (is_paused_within p target d o s').0 ≡ ok (is_after (add_duration last_reload d) checked_at)
  unfolding is_paused_within
  paused_within o none_set read found parsed = rw none_set (rw read (paused_since _ found parsed))

  -- The pause of a target without a config. Say that its workload was stamped after a reload: it was
  -- fetched, and written with the instant of the stamp in an annotation. If a later check reads what
  -- the stamp wrote, the target is paused exactly while the clock of the check is before the instant
  -- that the annotation parses to, plus the pause period.
  pub is_paused-stamped :
      target.config ≡ none
      → target.pause_period ≢ ""
      → p.parse_duration target.pause_period ≡ ok d
      → (get_workload p target.kind target.name target.namespace s).0 ≡ ok obj
      → latest (set_last_reload_annotation p target s).1.calls ≡ some (updated seen)
      → (get_workload p target.kind target.name target.namespace s').0 ≡ ok seen
      → p.parse_time (p.format_time (stamped_at p target obj s)) ≡ ok last_reload
      → (is_paused p target s').0 ≡ ok (is_after (add_duration last_reload d) checked_at)
  unfolding is_paused parse_duration
  is_paused-stamped no_config named period fetch write read parsed =
      let same : seen ≡ stamped p target obj s =
        ap (object_written seen)
          (sym write ∙ ap latest (set_last_reload_annotation-stamped p target obj s fetch)) in
      let found : lookup annotation_last_reload (get_annotations seen)
          ≡ some (p.format_time (stamped_at p target obj s)) =
        ap (λ o. lookup annotation_last_reload (get_annotations o)) same
        ∙ lookup-stamped p target obj s in
      let within = paused_within target.config no_config read found parsed in
      ground (arith, eq_iff target.pause_period "", within)
