-- ===== src/Workload/Updater/Restart.antt =====
-- The restart strategy deletes pods, and does nothing else.
use reloader_operator.Base.{
  ℕ, suc, ◌+◌, List, [], ◌∷◌, ◌++◌, none, some, ◌≡◌, ◌≢◌, ◌↔◌, ◌⊎◌, ◌∙◌, refl, arith, inl, inr, map,
  Some, append_assoc, sym,
}
use mathlib.Core.List.{reverse, reverse-cons, map-append}
use reloader_operator.Kube.{Failure, Pod}
use reloader_operator.Platform.{Platform, State, Call, deleted_pod}
use reloader_operator.Workload.Updater.{delete_pods, restart_listed_pods}

-- The deletions of pods in their order, as they stand in a list of calls.
abbrev pub deletions : List Pod → List Call
deletions pods = map deleted_pod (reverse pods)

module _ (p : Platform) where
  -- What the client answers to the deletions of the pods in their order.
  unfoldable pub answers : List Pod → p.World → List Failure
  answers [] w = []
  answers (pod ∷ pods) w = (p.delete_pod pod w).0 ∷ answers pods (p.delete_pod pod w).1

  abbrev successes : List Failure → ℕ
  successes [] = 0
  successes (none ∷ fs) = suc (successes fs)
  successes (some e ∷ fs) = successes fs

  -- The loop goes on behind a failure: it tries to delete each pod, in the order of the list, once.
  pub delete_pods-calls :
      (pods : List Pod) (n : ℕ) (s : State p.World)
      → (delete_pods p pods n s).1.calls ≡ deletions pods ++ s.calls
  unfolding delete_pods
  delete_pods-calls [] n s = refl
  delete_pods-calls (pod ∷ pods) n s =
      delete_pods-calls pods _ _ ∙ sym (simp (reverse-cons, map-append, append_assoc))

  delete_pods-count :
      (pods : List Pod) (n : ℕ) (s : State p.World)
      → (delete_pods p pods n s).0 ≡ n + successes (answers pods s.world)
  unfolding delete_pods answers
  delete_pods-count [] n s = omega arith
  delete_pods-count (pod ∷ pods) n s =
      let s' : State p.World = record {
        world = (p.delete_pod pod s.world).1;
        calls = deleted_pod pod ∷ s.calls;
      } in
      ground (arith, delete_pods-count pods (n + 1) s', delete_pods-count pods n s')

  successes-ne-zero_iff : (fs : List Failure) → (successes fs ≢ 0) ↔ Some (λ f. f ≡ none) fs
  successes-ne-zero_iff [] = (λ h. h refl, λ h. absurd h)
  successes-ne-zero_iff (none ∷ fs) = (λ h. inl refl, λ h. omega arith)
  successes-ne-zero_iff (some e ∷ fs) = (
    λ h. inr ((successes-ne-zero_iff fs).0 h),
    elim [ inl q ↦ absurd (ground arith) | inr q ↦ (successes-ne-zero_iff fs).1 q ],
  )

  -- The restart of a list of pods succeeds exactly if there are none, or one deletion at least
  -- succeeds; each is tried, whatever the others did.
  pub restart_listed_pods-success_iff :
      (pods : List Pod) (s : State p.World)
      → (((restart_listed_pods p pods s).0 ≡ none)
          ↔ ((pods ≡ []) ⊎ Some (λ f. f ≡ none) (answers pods s.world)))
        × ((restart_listed_pods p pods s).1.calls ≡ deletions pods ++ s.calls)
  unfolding restart_listed_pods
  restart_listed_pods-success_iff [] s = ((λ _. inl refl, λ _. refl), refl)
  restart_listed_pods-success_iff (pod ∷ pods) s = (
    ground (
      arith,
      delete_pods-count (pod ∷ pods) 0 s,
      successes-ne-zero_iff (answers (pod ∷ pods) s.world),
    ),
    delete_pods-calls (pod ∷ pods) 0 s,
  )
