-- ===== src/Controller/Status/Rounds.antt =====
-- What a round of the worker does to the queue.
use reloader_operator.Base.{
  Bool-cases, Option-cases, subst, ℕ, suc, ◌<◌, true, none, some, List, [], ◌∷◌, ◌++◌, ◌≡◌, ◌≢◌,
  ◌≤◌, ◌⊎◌, ◌∙◌, ap, refl, inl, inr, arith, ltb, Some, Some-append_left, Some-append_right,
}
use reloader_operator.Kube.{Failure}
use reloader_operator.Platform.{Platform, State, Call, forgot, requeued, finished}
use reloader_operator.Controller.WorkItem.{StatusUpdateWorkItem}
use reloader_operator.Controller.Status.{
  process_status_update, retry_or_forget, settle, process_next_status_update,
}
use reloader_operator.Controller.Status.WorkQueue.{WorkQueue, attempts_left, attempts_left-append}
use reloader_operator.Controller.Status.Keeps.{Has, process-Keeps, process-Grows}

-- The item waits in the queue.
abbrev pub Waits : StatusUpdateWorkItem → List (StatusUpdateWorkItem × ℕ) → Type 0
Waits item = Some (λ entry. entry.0 ≡ item)

module _ (p : Platform) (q : WorkQueue p) where
  -- After a round the rest waits, and the item is forgotten, or waits last if it was put back.
  abbrev pub Round :
      StatusUpdateWorkItem → ℕ → List (StatusUpdateWorkItem × ℕ) → State p.World → Type 0
  Round item n rest s =
      ((q.waiting s.world ≡ rest) × Has (forgot item) s.calls)
      ⊎ ((n < 5) × (q.waiting s.world ≡ rest ++ ((item, suc n) ∷ [])))

  settle-Round :
      (item : StatusUpdateWorkItem) (failure : Failure) (n : ℕ) (s : State p.World)
      → q.current s.world ≡ some (item, n)
      → Round item n (q.waiting s.world) (settle p item failure s).1
  unfolding settle retry_or_forget
  settle-Round item none n s h = inl (q.done item _ ∙ q.forget item s.world, inr (inl refl))
  settle-Round item (some e) n s h =
      let (count, kept, same) = q.num_requeues s.world h in
      elim (Bool-cases (ltb n 5)) [
        | inl below ↦ inr (
          ground arith,
          rw (count, below)
              (q.done item _
                ∙ q.add_rate_limited _ (same ∙ h)
                ∙ ap (λ l. l ++ ((item, suc n) ∷ [])) kept),
        )
        | inr over ↦ inl (
          rw (count, over) (q.done item _ ∙ q.forget item _ ∙ kept),
          rw (count, over) (inr (inl refl)),
        )
      ]

  pub process_next-Round :
      (item : StatusUpdateWorkItem) (n : ℕ) (rest : List (StatusUpdateWorkItem × ℕ))
      (s : State p.World)
      → q.waiting s.world ≡ (item, n) ∷ rest
      → ((process_next_status_update p s).0 ≡ true)
        × Round item n rest (process_next_status_update p s).1
  unfolding process_next_status_update
  process_next-Round item n rest s h =
      let (first, left, working) = q.get s.world h in
      let s₁ : State p.World = record s { world = (p.queue_get s.world).1 } in
      let (kept, same) = process-Keeps p q item s₁ in
      let failure = (process_status_update p item s₁).0 in
      let s₂ = (process_status_update p item s₁).1 in
      rw first (
        refl,
        subst (λ l. Round item n l (settle p item failure s₂).1) (kept ∙ left)
            (settle-Round item failure n s₂ (same ∙ working)),
      )

  -- The calls of a round, the newest first, and what waits after it, for the outcome of the update.
  abbrev pub Settled :
      StatusUpdateWorkItem
      → ℕ
      → List (StatusUpdateWorkItem × ℕ)
      → Failure
      → List Call
      → State p.World
      → Type 0
  Settled item n rest failure calls s =
      ((failure ≡ none)
        × (q.waiting s.world ≡ rest)
        × (s.calls ≡ finished item ∷ forgot item ∷ calls))
      ⊎ ((failure ≢ none)
          × (n < 5)
          × (q.waiting s.world ≡ rest ++ ((item, suc n) ∷ []))
          × (s.calls ≡ finished item ∷ requeued item ∷ calls))
      ⊎ ((failure ≢ none)
          × (5 ≤ n)
          × (q.waiting s.world ≡ rest)
          × (s.calls ≡ finished item ∷ forgot item ∷ calls))

  settle-Settled :
      (item : StatusUpdateWorkItem) (failure : Failure) (n : ℕ) (s : State p.World)
      → q.current s.world ≡ some (item, n)
      → Settled item n (q.waiting s.world) failure s.calls (settle p item failure s).1
  unfolding settle retry_or_forget
  settle-Settled item none n s h = inl (refl, q.done item _ ∙ q.forget item s.world, refl)
  settle-Settled item (some e) n s h =
      let (count, kept, same) = q.num_requeues s.world h in
      elim (Bool-cases (ltb n 5)) [
        | inl below ↦ inr (
            inl (
              (λ e. cc),
              ground arith,
              rw (count, below)
                  (q.done item _
                    ∙ q.add_rate_limited _ (same ∙ h)
                    ∙ ap (λ l. l ++ ((item, suc n) ∷ [])) kept),
              rw (count, below) refl,
            ))
        | inr over ↦ inr (
            inr (
              (λ e. cc),
              ground arith,
              rw (count, over) (q.done item _ ∙ q.forget item _ ∙ kept),
              rw (count, over) refl,
            ))
      ]

  -- The update of the first item, in the state that `Get` leaves.
  abbrev pub processed : StatusUpdateWorkItem → State p.World → Failure × State p.World
  processed item s = process_status_update p item (record s { world = (p.queue_get s.world).1 })

  -- A round with an item that was put back n times does not end the worker, and takes the item out. If
  -- its update succeeds, the item is forgotten and the rest waits. If it fails and n is less than 5, the
  -- item is not forgotten and waits again as the last one, with one more in its count. If it fails and
  -- n is 5 or more, the item is forgotten and the rest waits. `Done` is called last in each case, and
  -- nothing but the calls of the update and these two is made.
  pub process_next-Settled :
      (item : StatusUpdateWorkItem) (n : ℕ) (rest : List (StatusUpdateWorkItem × ℕ))
      (s : State p.World)
      → q.waiting s.world ≡ (item, n) ∷ rest
      → ((process_next_status_update p s).0 ≡ true)
        × Settled item n rest
            (processed item s).0
            (processed item s).1.calls
            (process_next_status_update p s).1
  unfolding process_next_status_update
  process_next-Settled item n rest s h =
      let (first, left, working) = q.get s.world h in
      let s₁ : State p.World = record s { world = (p.queue_get s.world).1 } in
      let (kept, same) = process-Keeps p q item s₁ in
      let (failure, s₂) = process_status_update p item s₁ in
      rw first (
        refl,
        subst (λ l. Settled item n l failure s₂.calls (settle p item failure s₂).1) (kept ∙ left)
            (settle-Settled item failure n s₂ (same ∙ working)),
      )

  pub Round-decreases :
      (item : StatusUpdateWorkItem) (n : ℕ) (rest : List (StatusUpdateWorkItem × ℕ))
      (s : State p.World)
      → Round item n rest s
      → attempts_left (q.waiting s.world) < attempts_left ((item, n) ∷ rest)
  Round-decreases item n rest s (inl (e, h)) = rw e (omega arith)
  Round-decreases item n rest s (inr (below, e)) =
      rw e (omega (arith, attempts_left-append rest item (suc n)))

  settle-Has :
      (item : StatusUpdateWorkItem) (failure : Failure) (c : Call) (s : State p.World)
      → Has c s.calls
      → Has c (settle p item failure s).1.calls
  unfolding settle retry_or_forget
  settle-Has item none c s h = inr (inr h)
  settle-Has item (some e) c s h = elim (Bool-cases (ltb (p.queue_num_requeues item s.world).0 5)) [
    | inl below ↦ rw below (inr (inr h))
    | inr over ↦ rw over (inr (inr h))
  ]

  -- A round takes back no call.
  pub process_next-Has :
      (c : Call) (s : State p.World)
      → Has c s.calls
      → Has c (process_next_status_update p s).1.calls
  unfolding process_next_status_update
  process_next-Has c s h = elim (Option-cases (p.queue_get s.world).0) [
    | inl e ↦ rw e h
    | inr (item, e) ↦ rw e (settle-Has item _ c _ (process-Grows p item c _ h))
  ]

  -- An item that waits before a round has been forgotten after it, or still waits.
  pub Round-Waits :
      (first : StatusUpdateWorkItem) (n : ℕ) (rest : List (StatusUpdateWorkItem × ℕ))
      (s : State p.World) (item : StatusUpdateWorkItem)
      → Round first n rest s
      → Waits item ((first, n) ∷ rest)
      → Has (forgot item) s.calls ⊎ Waits item (q.waiting s.world)
  Round-Waits first n rest s item (inl (e, h)) (inl same) =
      inl (subst (λ i. Has (forgot i) s.calls) same h)
  Round-Waits first n rest s item (inl (e, h)) (inr w) = inr (rw e w)
  Round-Waits first n rest s item (inr (below, e)) (inl same) =
      inr (rw e (Some-append_right _ rest _ (inl same)))
  Round-Waits first n rest s item (inr (below, e)) (inr w) =
      inr (rw e (Some-append_left _ rest _ w))
