-- ===== src/Controller/Status/Stored.antt =====
-- What the server keeps of a status, and the pause that is read back from it.
use reloader_operator.Base.{
  ◌<◌, ◌*◌, ◌/◌, true, false, Option, none, some, List, [], ◌∷◌, ◌≡◌, ◌≢◌, refl, arith, eq_iff,
  Bool-cases, inl, inr, map,
}
use reloader_operator.Api.{
  Time, Duration, Condition, ReloaderConfig, TargetWorkloadStatus, add_duration,
}
use reloader_operator.Kube.{ok}
use reloader_operator.Platform.{Platform, State}
use reloader_operator.Util.Durations.{parse_duration}
use reloader_operator.Workload.Target.{Target}
use reloader_operator.Workload.Pause.{
  is_entry_of, paused_until_of, is_paused, is_paused_within, is_paused_in_status,
}
use reloader_operator.Controller.Status.{target_entry_after, target_status_after}
use reloader_operator.Controller.Status.Entries.{new_entry, own_entry}

-- An instant as `metav1.Time` writes it into JSON: without the part of a second.
abbrev pub whole_seconds : Time → Time
whole_seconds t = t / 1000000000 * 1000000000

abbrev kept_time : Option Time → Option Time
kept_time none = none
kept_time (some t) = some (whole_seconds t)

abbrev pub kept_entry : TargetWorkloadStatus → TargetWorkloadStatus
kept_entry e = record e {
  last_reload_time = kept_time e.last_reload_time;
  paused_until = kept_time e.paused_until;
}

abbrev kept_condition : Condition → Condition
kept_condition c = record c { last_transition_time = whole_seconds c.last_transition_time }

-- A config that was written, as the server returns it: the instants of its status in whole seconds.
abbrev pub kept_config : ReloaderConfig → ReloaderConfig
kept_config config = record config {
  status = record (config.status) {
    conditions = map kept_condition config.status.conditions;
    last_reload_time = kept_time config.status.last_reload_time;
    target_status = map kept_entry config.status.target_status;
  };
}

module _ (p : Platform) (target : Target) (now : Time) (d : Duration) where
  until_after :
      (status : TargetWorkloadStatus)
      → is_entry_of target status ≡ true
      → target.pause_period ≢ ""
      → p.parse_duration target.pause_period ≡ ok d
      → paused_until_of target
          (kept_entry (target_entry_after now p.parse_duration target "" status))
        ≡ some (whole_seconds (add_duration now d))
  unfolding target_entry_after
  until_after status e a b = ground (arith, eq_iff target.pause_period "")

  paused_at_head :
      (status : TargetWorkloadStatus) (rest : List TargetWorkloadStatus) (s : State p.World)
      → paused_until_of target status ≡ some (whole_seconds (add_duration now d))
      → (p.now s.world).0 < whole_seconds (add_duration now d)
      → (is_paused_in_status p target (status ∷ rest) s).0 ≡ true
  unfolding is_paused_in_status
  paused_at_head status rest s e c = ground arith

  paused_in_tail :
      (status : TargetWorkloadStatus) (rest : List TargetWorkloadStatus) (s : State p.World)
      → is_entry_of target status ≡ false
      → is_paused_in_status p target (status ∷ rest) s ≡ is_paused_in_status p target rest s
  unfolding is_paused_in_status
  paused_in_tail status rest s e = ground arith

  pause_in_status :
      (target_status : List TargetWorkloadStatus) (s : State p.World)
      → target.pause_period ≢ ""
      → p.parse_duration target.pause_period ≡ ok d
      → (p.now s.world).0 < whole_seconds (add_duration now d)
      → (is_paused_in_status p target
          (map kept_entry (target_status_after now p.parse_duration target "" target_status))
          s).0
        ≡ true
  unfolding target_status_after
  pause_in_status [] s a b c =
      let e = own_entry now p.parse_duration target "" in
      paused_at_head
        (kept_entry (target_entry_after now p.parse_duration target "" (new_entry target))) [] s
        (until_after (new_entry target) e a b) c
  pause_in_status (status ∷ rest) s a b c = elim (Bool-cases (is_entry_of target status)) [
    | inl e ↦ rw e (paused_at_head _ (map kept_entry rest) s (until_after status e a b) c)
    | inr e ↦ rw e (
        rw
          (paused_in_tail (kept_entry status)
            (map kept_entry (target_status_after now p.parse_duration target "" rest)) s e)
          (pause_in_status rest s a b c))
  ]

  paused_within :
      (config : ReloaderConfig) (o : Option ReloaderConfig) (s : State p.World)
      → o ≡ some config
      → (is_paused_in_status p target config.status.target_status s).0 ≡ true
      → (is_paused_within p target d o s).0 ≡ ok true
  unfolding is_paused_within
  paused_within config o s e h = rw e (rw h refl)

  -- A reload begins the pause of its target: once the status update for a success at an instant is
  -- written to a config, the target with that config, as the server returns it, is paused at each
  -- instant before the end of its pause period, rounded down to a whole second.
  pub is_paused-target_status_after :
      (config : ReloaderConfig) (s : State p.World)
      → target.config
        ≡ some (
            kept_config (record config {
              status = record (config.status) {
                target_status =
                    target_status_after now p.parse_duration target "" config.status.target_status;
              };
            }))
      → target.pause_period ≢ ""
      → p.parse_duration target.pause_period ≡ ok d
      → (p.now s.world).0 < whole_seconds (add_duration now d)
      → (is_paused p target s).0 ≡ ok true
  unfolding is_paused parse_duration
  is_paused-target_status_after config s e a b c =
      let h =
        paused_within _ target.config s e (pause_in_status config.status.target_status s a b c) in
      ground (arith, eq_iff target.pause_period "", h)
