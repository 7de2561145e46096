-- ===== src/Controller/Status/Announced.antt =====
-- What the worker makes of the items that an event puts into the queue: `updateReloaderConfigStatuses`
-- of internal/controller/reconciler_status.go, followed by rounds of the worker.
use reloader_operator.Base.{
  ℕ, String, true, Option, none, some, List, [], ◌∷◌, ◌++◌, ◌≡◌, ◌⊎◌, ◌∙◌, inl, inr, refl, ap,
  arith, ◌==◌, Bool-cases, All, All-append, All-implies, All-middle, length, lookup, if◌then◌else◌,
}
use reloader_operator.Kube.{ObjectKey}
use reloader_operator.Api.{ReloaderConfig}
use reloader_operator.Platform.{Platform, State}
use reloader_operator.Util.Keys.{make_resource_key}
use reloader_operator.Controller.WorkItem.{StatusUpdateWorkItem}
use reloader_operator.Controller.StatusQueue.{
  config_key_of, config_item, update_reloader_config_statuses,
}
use reloader_operator.Controller.Status.{start_status_update_worker}
use reloader_operator.Controller.Status.Store.{ConfigStore, same_key}
use reloader_operator.Controller.Status.WorkQueue.{WorkQueue}
use reloader_operator.Controller.Status.Holds.{IsBuilt, after_item, after_items, same_key_refl}
use reloader_operator.Controller.Status.Recorded.{worker-records}

-- The item is in the queue.
pub data Waits (item : StatusUpdateWorkItem) : List (StatusUpdateWorkItem × ℕ) → Type 0 where
  here : (n : ℕ) (rest : List (StatusUpdateWorkItem × ℕ)) → Waits item ((item, n) ∷ rest)
  there :
      (entry : StatusUpdateWorkItem × ℕ) (rest : List (StatusUpdateWorkItem × ℕ))
      → Waits item rest
      → Waits item (entry ∷ rest)

-- `Add` while the worker rests: an item that is in the queue already is not added again, any other one
-- becomes the last, and no config changes.
pub record Adds (p : Platform) (q : WorkQueue p) (store : ConfigStore p) : Type 0 where
  pub add :
      (item : StatusUpdateWorkItem) (w : p.World)
      → q.current w ≡ none
      → (q.current (p.queue_add item w) ≡ none)
        × ((Waits item (q.waiting w) × (q.waiting (p.queue_add item w) ≡ q.waiting w))
            ⊎ ((n : ℕ) × (q.waiting (p.queue_add item w) ≡ q.waiting w ++ ((item, n) ∷ []))))
  pub add_keeps :
      (item : StatusUpdateWorkItem) (k : ObjectKey) (w : p.World)
      → store.stored (p.queue_add item w) k ≡ store.stored w k

Waits-last :
    (item : StatusUpdateWorkItem) (n : ℕ) (entries : List (StatusUpdateWorkItem × ℕ))
    → Waits item (entries ++ ((item, n) ∷ []))
Waits-last item n [] = here n []
Waits-last item n (e ∷ es) = there e _ (Waits-last item n es)

Waits-append :
    (item : StatusUpdateWorkItem) (entries more : List (StatusUpdateWorkItem × ℕ))
    → Waits item entries
    → Waits item (entries ++ more)
Waits-append item _ more (here n rest) = here n (rest ++ more)
Waits-append item _ more (there e rest w) = there e (rest ++ more) (Waits-append item rest more w)

module _ (namespace kind name hash : String) where
  -- The entries of the queue that are for the resource with the hash.
  abbrev About : StatusUpdateWorkItem × ℕ → Type 0
  About (item, n) = (config : ReloaderConfig) × (item ≡ config_item namespace kind name hash config)

  -- What a table reads once the hash of the resource is put into it, or is taken out if it is empty.
  abbrev pub put : String → Option String → Option String
  put key old =
      if make_resource_key namespace kind name == key
      then (if hash == "" then none else some hash)
      else old

  put-put : (key : String) (old : Option String) → put key (put key old) ≡ put key old
  put-put key old = ground arith

  module _ (k : ObjectKey) (key : String) where
    after_item-put :
        (config : ReloaderConfig) (old : Option String)
        → same_key (config_key_of config) k ≡ true
        → after_item k (config_item namespace kind name hash config) key old ≡ put key old
    unfolding after_item
    after_item-put config old e = ground (arith, e)

    after_item-About :
        (item : StatusUpdateWorkItem) (n : ℕ) (old : Option String)
        → About (item, n)
        → (after_item k item key old ≡ old) ⊎ (after_item k item key old ≡ put key old)
    unfolding after_item
    after_item-About item n old (config, e) =
        elim (Bool-cases (same_key (config_key_of config) k)) [
          | inl h ↦ rw e (inr (after_item-put config old h))
          | inr h ↦ rw e (inl (ground (arith, h)))
        ]

    after_items-put :
        (entries : List (StatusUpdateWorkItem × ℕ)) (old : Option String)
        → All About entries
        → after_items k entries key (put key old) ≡ put key old
    after_items-put [] old a = refl
    after_items-put ((item, n) ∷ rest) old (a, abouts) =
        ap (after_items k rest key) same ∙ after_items-put rest old abouts
      where
        same : after_item k item key (put key old) ≡ put key old
        same = elim (after_item-About item n (put key old) a) [
          | inl e ↦ e
          | inr e ↦ e ∙ put-put key old
        ]

    after_items-Waits :
        (config : ReloaderConfig) (entries : List (StatusUpdateWorkItem × ℕ)) (old : Option String)
        → same_key (config_key_of config) k ≡ true
        → Waits (config_item namespace kind name hash config) entries
        → All About entries
        → after_items k entries key old ≡ put key old
    after_items-Waits config _ old e (here n rest) (a, abouts) =
        ap (after_items k rest key) (after_item-put config old e) ∙ after_items-put rest old abouts
    after_items-Waits config _ old e (there (item, n) rest w) (a, abouts) =
        after_items-Waits config rest (after_item k item key old) e w abouts ∙ same
      where
        same : put key (after_item k item key old) ≡ put key old
        same = elim (after_item-About item n old a) [
          | inl h ↦ ap (put key) h
          | inr h ↦ ap (put key) h ∙ put-put key old
        ]

  About-IsBuilt : (entry : StatusUpdateWorkItem × ℕ) → About entry → IsBuilt entry
  About-IsBuilt (item, n) (config, e) = inl (rw e refl)

  module _ (p : Platform) (store : ConfigStore p) (q : WorkQueue p) (adds : Adds p q store) where
    abbrev announced : List ReloaderConfig → State p.World → State p.World
    announced configs s = (update_reloader_config_statuses p configs namespace kind name hash s).1

    abbrev item_of : ReloaderConfig → StatusUpdateWorkItem
    item_of = config_item namespace kind name hash

    -- The worker rests, all items of the queue are for the resource with the hash, and none was lost.
    abbrev Grown : p.World → p.World → Type 0
    Grown w w' =
        (q.current w' ≡ none)
        × All About (q.waiting w')
        × ((item : StatusUpdateWorkItem) → Waits item (q.waiting w) → Waits item (q.waiting w'))

    add_one :
        (config : ReloaderConfig) (w : p.World)
        → q.current w ≡ none
        → All About (q.waiting w)
        → Grown w (p.queue_add (item_of config) w)
          × Waits (item_of config) (q.waiting (p.queue_add (item_of config) w))
    add_one config w rests abouts =
        let item = item_of config in
        let (rests', added) = adds.add item w rests in
        elim added [
          | inl (waits, same) ↦ rw same ((rests', abouts, λ other h. h), waits)
          | inr (n, same) ↦ rw same (
            (
              rests',
              All-append About (q.waiting w) ((item, n) ∷ []) abouts ((config, refl), tt),
              λ other h. Waits-append other (q.waiting w) ((item, n) ∷ []) h,
            ),
            Waits-last item n (q.waiting w),
          )
        ]

    -- The items of all configs of the list wait in the queue then, and no config has changed.
    add_each :
        (configs : List ReloaderConfig) (s : State p.World)
        → q.current s.world ≡ none
        → All About (q.waiting s.world)
        → Grown s.world (announced configs s).world
          × All (λ config. Waits (item_of config) (q.waiting (announced configs s).world)) configs
          × ((k : ObjectKey) → store.stored (announced configs s).world k ≡ store.stored s.world k)
    unfolding update_reloader_config_statuses
    add_each [] s rests abouts = ((rests, abouts, λ item h. h), tt, λ k. refl)
    add_each (config ∷ configs) s rests abouts =
        let ((rests₁, abouts₁, keeps₁), first) = add_one config s.world rests abouts in
        let s₁ : State p.World = (announced (config ∷ []) s) in
        let ((rests₂, abouts₂, keeps₂), others, same) = add_each configs s₁ rests₁ abouts₁ in
        (
          (rests₂, abouts₂, λ item h. keeps₂ item (keeps₁ item h)),
          (keeps₂ (item_of config) first, others),
          λ k. same k ∙ adds.add_keeps (item_of config) k s.world,
        )

    -- The status updates of an event reach the tables: where the queue is empty and the worker rests,
    -- the items are put into it for a list of configs, however many of them are equal, and the worker
    -- then makes as many rounds as items wait, with a server that accepts each write. After that the
    -- queue is empty, and for each config of the list, the config that was stored under its key is
    -- stored with a table that reads the new hash under the key of the resource, or nothing if the hash
    -- is empty, and under every other key what it read before.
    pub announced-recorded :
        (s : State p.World) (before after : List ReloaderConfig) (config old : ReloaderConfig)
        → q.current s.world ≡ none
        → q.waiting s.world ≡ []
        → store.stored s.world (config_key_of config) ≡ some old
        → (let queued =
              (update_reloader_config_statuses p
                (before ++ (config ∷ after))
                namespace
                kind
                name
                hash
                s).1 in
            let worked =
              (start_status_update_worker p (length (q.waiting queued.world)) queued).1 in
            (q.waiting worked.world ≡ [])
            × (new : ReloaderConfig) × (store.stored worked.world (config_key_of config) ≡ some new)
            × ((key : String)
                → lookup key new.status.watched_resource_hashes ≡ (
                    if make_resource_key namespace kind name == key
                    then (if hash == "" then none else some hash)
                    else lookup key old.status.watched_resource_hashes)))
    announced-recorded s before after config old rests empty stored =
        let queued = announced (before ++ (config ∷ after)) s in
        let ((_, abouts, _), waiting, same) =
          add_each (before ++ (config ∷ after)) s rests (rw empty tt) in
        let waits : Waits (item_of config) (q.waiting queued.world) =
          (All-middle (λ c. Waits (item_of c) (q.waiting queued.world)) before config after
            waiting).0 in
        let k = config_key_of config in
        let (drained, new, held, reads) =
          worker-records p store k q queued old (same k ∙ stored)
            (All-implies About IsBuilt _ About-IsBuilt abouts) in
        (
          drained,
          new,
          held,
          λ key. reads key ∙ after_items-Waits k key config _ _ (same_key_refl k) waits abouts,
        )
