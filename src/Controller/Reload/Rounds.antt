-- ===== src/Controller/Reload/Rounds.antt =====
-- One round of the loop over the targets.
use reloader_operator.Base.{true, false, none, some, ◌≡◌, ◌≢◌, ◌↔◌, ◌∙◌, String, arith}
use reloader_operator.Kube.{GoError, ok, Failure}
use reloader_operator.Api.{ReloaderConfig}
use reloader_operator.Platform.{Platform, State, M, enqueued, latest}
use reloader_operator.Platform.Quiet.{IsQuiet}
use reloader_operator.Workload.Target.{Target}
use reloader_operator.Workload.Pause.{is_paused}
use reloader_operator.Workload.Pause.Quiet.{is_paused-IsQuiet}
use reloader_operator.Controller.Reconciler.{Reconciler}
use reloader_operator.Controller.StatusQueue.{target_item, update_target_status}
use reloader_operator.Controller.Reload.{
  refresh, note_status, handle_reload_success, handle_reload_error, handle_outcome, reload_round,
}

refresh-IsQuiet : (p : Platform) (target : Target) → IsQuiet (refresh p target)
unfolding refresh
refresh-IsQuiet p target s = ground arith

module _ (p : Platform) (r : Reconciler) (kind name : String) (trigger : Target → M p.World Failure)
    (target : Target) (s : State p.World) where
  -- The target with its fresh config, and the states after the two reads of a round.
  abbrev pub fresh_target : Target
  fresh_target = (refresh p target s).0

  abbrev pub refreshed : State p.World
  refreshed = (refresh p target s).1

  abbrev pub checked : State p.World
  checked = (is_paused p fresh_target refreshed).1

  checked-calls : checked.calls ≡ s.calls
  checked-calls = is_paused-IsQuiet p fresh_target refreshed ∙ refresh-IsQuiet p target s

  -- A round counts as a success exactly when the target is not paused and its trigger returns no
  -- error; the pause is judged on the config that was fetched for the round.
  pub reload_round-success_iff : ((reload_round p r kind name trigger target s).0 ≡ true) ↔ (
      ((is_paused p fresh_target refreshed).0 ≡ ok false)
      × ((trigger fresh_target checked).0 ≡ none))
  unfolding reload_round handle_outcome
  reload_round-success_iff = ground arith

  -- A target that is paused, or whose pause cannot be told, is passed over: nothing is called that
  -- leaves a mark, and the round is no success.
  pub reload_round-paused :
      (is_paused p fresh_target refreshed).0 ≢ ok false
      → ((reload_round p r kind name trigger target s).1.calls ≡ s.calls)
        × ((reload_round p r kind name trigger target s).0 ≡ false)
  unfolding reload_round
  reload_round-paused h = ground (arith, checked-calls)

  -- After a success the status queue gets, last of all, an item for the target that has no error, if
  -- the target has a config.
  pub reload_round-enqueues :
      (config : ReloaderConfig)
      → fresh_target.config ≡ some config
      → (reload_round p r kind name trigger target s).0 ≡ true
      → latest (reload_round p r kind name trigger target s).1.calls
        ≡ some (enqueued (target_item config fresh_target ""))
  unfolding reload_round handle_outcome handle_reload_success note_status update_target_status
  reload_round-enqueues config e h = ground arith

  -- The outcome of a round, for the target with the config that was fetched for the round. If it is
  -- paused, or its pause cannot be told, nothing is called that leaves a mark, and the round is no
  -- success. Else, if the trigger returns an error, the round is no success, and the last call puts an
  -- item with the text of the error into the status queue; and if the trigger returns none, the round
  -- is a success, and the last call puts an item without an error into it. Both items are for a target
  -- that has a config.
  pub reload_round-outcome :
      ((is_paused p fresh_target refreshed).0 ≢ ok false
        → ((reload_round p r kind name trigger target s).1.calls ≡ s.calls)
          × ((reload_round p r kind name trigger target s).0 ≡ false))
      × ((is_paused p fresh_target refreshed).0 ≡ ok false
          → ((e : GoError)
              → (trigger fresh_target checked).0 ≡ some e
              → ((reload_round p r kind name trigger target s).0 ≡ false)
                × ((config : ReloaderConfig)
                    → fresh_target.config ≡ some config
                    → latest (reload_round p r kind name trigger target s).1.calls
                      ≡ some (enqueued (target_item config fresh_target e.text))))
            × ((trigger fresh_target checked).0 ≡ none
                → ((reload_round p r kind name trigger target s).0 ≡ true)
                  × ((config : ReloaderConfig)
                      → fresh_target.config ≡ some config
                      → latest (reload_round p r kind name trigger target s).1.calls
                        ≡ some (enqueued (target_item config fresh_target "")))))
  unfolding reload_round handle_outcome handle_reload_success handle_reload_error note_status
      update_target_status
  reload_round-outcome = (
    λ h. reload_round-paused h,
    λ go. (
      λ e failed. (ground arith, λ config c. ground arith),
      λ done. (ground arith, λ config c. ground arith),
    ),
  )
