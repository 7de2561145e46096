-- ===== src/Controller/Status/Drained.antt =====
-- The worker empties its queue.
use reloader_operator.Base.{
  ℕ, zero, suc, ◌≤◌, true, List, [], ◌∷◌, ◌≡◌, ◌⊎◌, ap, refl, inl, inr, arith,
}
use reloader_operator.Platform.{Platform, State}
use reloader_operator.Controller.WorkItem.{StatusUpdateWorkItem}
use reloader_operator.Controller.Status.{process_next_status_update, start_status_update_worker}
use reloader_operator.Controller.Status.WorkQueue.{WorkQueue, attempts_left}
use reloader_operator.Controller.Status.Rounds.{process_next-Round, Round-decreases}

queue-cases :
    (queue : List (StatusUpdateWorkItem × ℕ))
    → (queue ≡ [])
      ⊎ ((item : StatusUpdateWorkItem) × (n : ℕ) × (rest : List (StatusUpdateWorkItem × ℕ)) × (queue
            ≡ (item, n) ∷ rest))
queue-cases [] = inl refl
queue-cases ((item, n) ∷ rest) = inr (item, n, rest, refl)

module _ (p : Platform) (q : WorkQueue p) where
  -- Some number of rounds empties the queue.
  abbrev Drains : State p.World → Type 0
  Drains s =
      (rounds : ℕ) × (rounds ≤ attempts_left (q.waiting s.world))
      × ((start_status_update_worker p rounds s).0 ≡ true)
      × (q.waiting (start_status_update_worker p rounds s).1.world ≡ [])

  Drains-empty : (s : State p.World) → q.waiting s.world ≡ [] → Drains s
  unfolding start_status_update_worker
  Drains-empty s e = (0, omega arith, refl, e)

  Drains-next :
      (item : StatusUpdateWorkItem) (n : ℕ) (rest : List (StatusUpdateWorkItem × ℕ))
      (s : State p.World)
      → q.waiting s.world ≡ (item, n) ∷ rest
      → Drains (process_next_status_update p s).1
      → Drains s
  unfolding start_status_update_worker
  Drains-next first n rest s h (rounds, bound, runs, empty) =
      let (more, round) = process_next-Round p q first n rest s h in
      let s' = (process_next_status_update p s).1 in
      let less = Round-decreases p q first n rest s' round in
      (suc rounds, rw h (omega arith), rw more runs, rw more empty)

  Drains-within : (k : ℕ) (s : State p.World) → attempts_left (q.waiting s.world) ≤ k → Drains s
  Drains-within zero s bound = elim (queue-cases (q.waiting s.world)) [
    | inl e ↦ Drains-empty s e
    | inr (item, n, rest, e) ↦ absurd (omega (arith, ap attempts_left e))
  ]
  Drains-within (suc k) s bound = elim (queue-cases (q.waiting s.world)) [
    | inl e ↦ Drains-empty s e
    | inr (item, n, rest, e) ↦
        let s' = (process_next_status_update p s).1 in
        let less = Round-decreases p q item n rest s' (process_next-Round p q item n rest s e).1 in
        Drains-next item n rest s e (Drains-within k s' (omega (arith, ap attempts_left e)))
  ]

  -- With a queue that nobody else fills, the worker empties it: after at most six rounds for each item,
  -- less one for each time that it was put back before, but one at least, no item waits any more, and
  -- the worker still runs.
  pub worker-drains :
      (s : State p.World)
      → (rounds : ℕ) × (rounds ≤ attempts_left (q.waiting s.world))
        × ((start_status_update_worker p rounds s).0 ≡ true)
        × (q.waiting (start_status_update_worker p rounds s).1.world ≡ [])
  worker-drains s = Drains-within (attempts_left (q.waiting s.world)) s (omega arith)
