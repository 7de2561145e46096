-- ===== src/Workload/Updater/Triggers.antt =====
-- What a reload of a target calls.
use reloader_operator.Base.{
  String, true, false, List, [], ◌++◌, none, some, ◌≡◌, ◌≢◌, refl, arith, inl, inr, eq_iff,
  StringMap, ◌==◌, Bool-cases,
}
use reloader_operator.Kube.{Pod, Result-cases}
use reloader_operator.Platform.{Platform, State}
use reloader_operator.Util.Names.{
  kind_deployment, kind_stateful_set, kind_daemon_set, rollout_strategy_restart,
}
use reloader_operator.Util.Workloads.{get_workload}
use reloader_operator.Util.Workloads.Quiet.{get_workload-IsQuiet}
use reloader_operator.Workload.Target.{Target}
use reloader_operator.Workload.Updater.{
  trigger_restart_rollout, trigger_reload, trigger_delete_reload, is_workload_kind,
  restart_labelled_pods, restart_workload_pods, selector_of, labels_of,
}
use reloader_operator.Workload.Updater.Restart.{deletions, restart_listed_pods-success_iff}

module _ (p : Platform) where
  -- A reload of a kind that the operator does not reload fails, whatever the strategies are, and calls
  -- nothing that leaves a mark; so does a reload after a deletion.
  pub trigger-unsupported :
      (target : Target) (kind name namespace hash : String) (s : State p.World)
      → target.kind ≢ kind_deployment
      → target.kind ≢ kind_stateful_set
      → target.kind ≢ kind_daemon_set
      → ((trigger_reload p target kind name namespace hash s).0 ≢ none)
        × ((trigger_reload p target kind name namespace hash s).1.calls ≡ s.calls)
        × ((trigger_delete_reload p target kind name s).0 ≢ none)
        × ((trigger_delete_reload p target kind name s).1.calls ≡ s.calls)
  unfolding trigger_reload trigger_delete_reload trigger_restart_rollout get_workload
  trigger-unsupported target kind name namespace hash s a b c =
      let x = eq_iff target.kind kind_deployment in
      let y = eq_iff target.kind kind_stateful_set in
      let z = eq_iff target.kind kind_daemon_set in
      (
        ground (arith, x, y, z),
        ground (arith, x, y, z),
        ground (arith, x, y, z),
        ground (arith, x, y, z),
      )

  restart_labelled_pods-calls :
      (labels : StringMap) (namespace : String) (s : State p.World)
      → (pods : List Pod) × ((restart_labelled_pods p labels namespace s).1.calls
          ≡ deletions pods ++ s.calls)
  unfolding restart_labelled_pods
  restart_labelled_pods-calls none namespace s = ([], refl)
  restart_labelled_pods-calls (some labels) namespace s =
      elim (Result-cases (p.list_pods namespace (some labels) s.world).0) [
        | inl (pods, q) ↦ (pods, rw q (restart_listed_pods-success_iff p pods _).1)
        | inr (x, q) ↦ ([], rw q refl)
      ]

  restart-calls :
      (target : Target) (s : State p.World)
      → (pods : List Pod) × ((trigger_restart_rollout p target s).1.calls
          ≡ deletions pods ++ s.calls)
  unfolding trigger_restart_rollout restart_workload_pods
  restart-calls target s =
      let (fetched, s') = get_workload p target.kind target.name target.namespace s in
      let quiet = get_workload-IsQuiet p target.kind target.name target.namespace s in
      elim (Result-cases (get_workload p target.kind target.name target.namespace s).0) [
        | inl (obj, q) ↦
            let (pods, e) =
              restart_labelled_pods-calls (labels_of (selector_of obj)) target.namespace s' in
            elim (Bool-cases (is_workload_kind target.kind)) [
              | inl known ↦ (pods, rw (q, known) (rw quiet at e))
              | inr unknown ↦ ([], rw (q, unknown) quiet)
            ]
        | inr (x, q) ↦ ([], rw q quiet)
      ]

  -- With the restart strategy a reload deletes pods and makes no other call that leaves a mark: no
  -- workload is updated, whether a resource was changed or deleted.
  pub trigger-restart :
      (target : Target) (kind name namespace hash : String) (s : State p.World)
      → target.rollout_strategy ≡ rollout_strategy_restart
      → ((pods : List Pod) × ((trigger_reload p target kind name namespace hash s).1.calls
            ≡ deletions pods ++ s.calls))
        × ((pods : List Pod) × ((trigger_delete_reload p target kind name s).1.calls
              ≡ deletions pods ++ s.calls))
  unfolding trigger_reload trigger_delete_reload
  trigger-restart target kind name namespace hash s e =
      let restart : (target.rollout_strategy == rollout_strategy_restart) ≡ true = rw e refl in
      let given : (target.rollout_strategy == "") ≡ false = rw e refl in
      let (pods, q) = restart-calls target s in ((pods, ground arith), (pods, ground arith))
