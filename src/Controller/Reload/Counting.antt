-- ===== src/Controller/Reload/Counting.antt =====
-- The loop over the targets: its rounds, and what it counts.
use reloader_operator.Base.{
  ℕ, suc, ◌+◌, ◌≤◌, String, Bool, true, false, List, [], ◌∷◌, ◌≡◌, ◌∙◌, ap, refl, arith, length,
  if◌then◌else◌,
}
use reloader_operator.Kube.{Failure}
use reloader_operator.Platform.{Platform, State, M}
use reloader_operator.Workload.Target.{Target}
use reloader_operator.Workload.Updater.{trigger_reload, trigger_delete_reload}
use reloader_operator.Controller.Reconciler.{Reconciler}
use reloader_operator.Controller.Reload.{
  reload_round, reload_each, execute_reloads, execute_delete_reloads,
}

-- The number of successes.
abbrev pub successes : List Bool → ℕ
successes [] = 0
successes (true ∷ bs) = suc (successes bs)
successes (false ∷ bs) = successes bs

-- An action for each item of a list, in order, with all results.
abbrev pub each : {W A B : Type 0} → (A → M W B) → List A → M W (List B)
each f [] s = ([], s)
each f (x ∷ xs) s = let r = each f xs (f x s).1 in ((f x s).0 ∷ r.0, r.1)

length-each :
    {W A B : Type 0} (f : A → M W B) (xs : List A) (s : State W)
    → length (each f xs s).0 ≡ length xs
length-each f [] s = refl
length-each f (x ∷ xs) s = ap suc (length-each f xs (f x s).1)

successes-at_most : (bs : List Bool) → successes bs ≤ length bs
successes-at_most [] = omega arith
successes-at_most (true ∷ bs) = omega (arith, successes-at_most bs)
successes-at_most (false ∷ bs) = omega (arith, successes-at_most bs)

add-success :
    (success : Bool) (n : ℕ) (bs : List Bool)
    → (if success then n + 1 else n) + successes bs ≡ n + successes (success ∷ bs)
add-success true n bs = omega arith
add-success false n bs = omega arith

module _ (p : Platform) (r : Reconciler) (kind name : String) where
  module _ (trigger : Target → M p.World Failure) where
    reload_each-each :
        (targets : List Target) (n : ℕ) (s : State p.World)
        → ((reload_each p r kind name trigger targets n s).0
            ≡ n + successes (each (reload_round p r kind name trigger) targets s).0)
          × ((reload_each p r kind name trigger targets n s).1
              ≡ (each (reload_round p r kind name trigger) targets s).1)
    unfolding reload_each
    reload_each-each [] n s = (omega arith, refl)
    reload_each-each (t ∷ ts) n s =
        let (success, s') = reload_round p r kind name trigger t s in
        let (count, same) = reload_each-each ts (if success then n + 1 else n) s' in
        (count ∙ add-success success n _, same)

  -- The rounds of a loop of reloads, with their results and the state in which they end.
  abbrev pub reload_rounds :
      (Target → M p.World Failure) → List Target → State p.World → List Bool × State p.World
  reload_rounds trigger = each (reload_round p r kind name trigger)

  -- Both loops run one round for each target, in the order of the list and whatever the outcome of the
  -- rounds before; the number that they return is that of the rounds with a success, so it is at most
  -- the number of targets.
  pub execute_reloads-rounds :
      (targets : List Target) (namespace hash : String) (s : State p.World)
      → (let rounds = reload_rounds (λ t. trigger_reload p t kind name namespace hash) targets s in
          (execute_reloads p r kind name targets namespace hash s ≡ (successes rounds.0, rounds.1))
          × (length rounds.0 ≡ length targets)
          × ((execute_reloads p r kind name targets namespace hash s).0 ≤ length targets))
        × (let rounds = reload_rounds (λ t. trigger_delete_reload p t kind name) targets s in
            (execute_delete_reloads p r kind name targets s ≡ (successes rounds.0, rounds.1))
            × (length rounds.0 ≡ length targets)
            × ((execute_delete_reloads p r kind name targets s).0 ≤ length targets))
  unfolding execute_reloads execute_delete_reloads
  execute_reloads-rounds targets namespace hash s = (
    counted (λ t. trigger_reload p t kind name namespace hash),
    counted (λ t. trigger_delete_reload p t kind name),
  )
    where
      counted :
          (trigger : Target → M p.World Failure)
          → (reload_each p r kind name trigger targets 0 s ≡ (
            successes (reload_rounds trigger targets s).0,
            (reload_rounds trigger targets s).1,
          ))
            × (length (reload_rounds trigger targets s).0 ≡ length targets)
            × ((reload_each p r kind name trigger targets 0 s).0 ≤ length targets)
      counted trigger =
          let (count, same) = reload_each-each trigger targets 0 s in
          let total = length-each (reload_round p r kind name trigger) targets s in
          let total_of_zero : (reload_each p r kind name trigger targets 0 s).0
              ≡ successes (reload_rounds trigger targets s).0 =
            omega (arith, count) in
          (
            λ i. (total_of_zero i, same i),
            total,
            omega (arith, count, total, successes-at_most (reload_rounds trigger targets s).0),
          )
