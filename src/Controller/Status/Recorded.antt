-- ===== src/Controller/Status/Recorded.antt =====
-- What the tables of hashes hold once the worker has emptied its queue.
use reloader_operator.Base.{
  ℕ, String, true, false, Option, none, some, List, [], ◌∷◌, ◌≡◌, ◌∙◌, inl, inr, refl, sym, ap,
  Bool-cases, Option-cases, All, length, lookup,
}
use reloader_operator.Kube.{ObjectKey}
use reloader_operator.Api.{ReloaderConfig}
use reloader_operator.Platform.{Platform, State}
use reloader_operator.Controller.WorkItem.{StatusUpdateWorkItem}
use reloader_operator.Controller.Status.{
  process_status_update, settle, process_next_status_update, start_status_update_worker,
}
use reloader_operator.Controller.Status.Store.{ConfigStore, same_key}
use reloader_operator.Controller.Status.WorkQueue.{WorkQueue}
use reloader_operator.Controller.Status.Keeps.{process-Keeps}
use reloader_operator.Controller.Status.Holds.{
  IsBuilt, after_item, after_items, after_item-other, same_key-eq, Holds, config_item-Holds,
  target_item-Holds,
}

module _ (p : Platform) (store : ConfigStore p) (k : ObjectKey) where
  module _ (item : StatusUpdateWorkItem) (view : String → Option String) where
    missing-other :
        (s : State p.World)
        → store.stored s.world item.config_key ≡ none
        → Holds p store k view s.world
        → same_key item.config_key k ≡ false
    missing-other s gone (config, held, reads) = elim (Bool-cases (same_key item.config_key k)) [
      | inl e ↦
          let both : none ≡ some config =
            sym gone ∙ (ap (store.stored s.world) (same_key-eq item.config_key k e) ∙ held) in
          absurd (cc)
      | inr e ↦ e
    ]

    process-Holds :
        (n : ℕ) (s : State p.World)
        → IsBuilt (item, n)
        → Holds p store k view s.world
        → ((process_status_update p item s).0 ≡ none)
          × Holds p store k
              (λ key. after_item k item key (view key))
              (process_status_update p item s).1.world
    unfolding process_status_update
    process-Holds n s built (config, held, reads) =
        elim (Option-cases (store.stored s.world item.config_key)) [
          | inl gone ↦
              let (e, not_found, answer) = store.get_missing s.world item.config_key gone in
              let other = missing-other s gone (config, held, reads) in
              rw (answer, not_found)
                (
                  refl,
                  (
                    config,
                    store.get_keeps item.config_key k s.world ∙ held,
                    λ key. reads key ∙ sym (after_item-other k item key (view key) other),
                  ),
                )
          | inr (fetched, found) ↦
              let answer = store.get_found s.world item.config_key fetched found in
              let named = store.key_of s.world item.config_key fetched found in
              let s' : State p.World = record s {
                world = (p.get_config item.config_key s.world).1;
              } in
              let found' = store.get_keeps item.config_key item.config_key s.world ∙ found in
              let holds : Holds p store k view s'.world =
                (config, store.get_keeps item.config_key k s.world ∙ held, reads) in
              elim built [
                | inl kind ↦
                    rw answer
                      (config_item-Holds p store k item view fetched s' named found' kind holds)
                | inr (kind, target, t) ↦ rw answer (
                    target_item-Holds p store k item view fetched target s' named found' kind t
                      holds)
              ]
        ]

  module _ (q : WorkQueue p) where
    next-Holds :
        (item : StatusUpdateWorkItem) (n : ℕ) (rest : List (StatusUpdateWorkItem × ℕ))
        (view : String → Option String) (s : State p.World)
        → q.waiting s.world ≡ (item, n) ∷ rest
        → IsBuilt (item, n)
        → Holds p store k view s.world
        → ((process_next_status_update p s).0 ≡ true)
          × (q.waiting (process_next_status_update p s).1.world ≡ rest)
          × Holds p store k
              (λ key. after_item k item key (view key))
              (process_next_status_update p s).1.world
    unfolding process_next_status_update settle
    next-Holds item n rest view s h built (config, held, reads) =
        let (first, left, working) = q.get s.world h in
        let s₁ : State p.World = record s { world = (p.queue_get s.world).1 } in
        let (success, (config', held', reads')) =
          process-Holds item view n s₁ built
            (config, store.queue_get_keeps k s.world ∙ held, reads) in
        let (kept, same) = process-Keeps p q item s₁ in
        rw (first, success)
          (
            refl,
            q.done item _ ∙ (q.forget item _ ∙ (kept ∙ left)),
            (config', store.done_keeps item k _ ∙ (store.forget_keeps item k _ ∙ held'), reads'),
          )

    record_each :
        (items : List (StatusUpdateWorkItem × ℕ)) (view : String → Option String)
        (s : State p.World)
        → q.waiting s.world ≡ items
        → All IsBuilt items
        → Holds p store k view s.world
        → (q.waiting (start_status_update_worker p (length items) s).1.world ≡ [])
          × Holds p store k
              (λ key. after_items k items key (view key))
              (start_status_update_worker p (length items) s).1.world
    unfolding start_status_update_worker
    record_each [] view s h built holds = (h, holds)
    record_each ((item, n) ∷ rest) view s h (b, built) holds =
        let (more, left, holds') = next-Holds item n rest view s h b holds in
        rw more (
          record_each rest (λ key. after_item k item key (view key))
            (process_next_status_update p s).1 left built holds')

    -- The worker implements a map of hashes. With a queue that nobody else fills and a server that
    -- accepts each write, the worker empties its queue in as many rounds as items wait; and then the
    -- table of a config that is stored reads what the items of the queue give in their order, where an
    -- item for a resource of this config puts its hash under the key of the resource, or takes the key
    -- out if the hash is empty, and every other item changes nothing.
    pub worker-records :
        (s : State p.World) (config : ReloaderConfig)
        → store.stored s.world k ≡ some config
        → All IsBuilt (q.waiting s.world)
        → (q.waiting (start_status_update_worker p (length (q.waiting s.world)) s).1.world ≡ [])
          × (config' : ReloaderConfig) × (store.stored
                (start_status_update_worker p (length (q.waiting s.world)) s).1.world
                k
              ≡ some config')
          × ((key : String)
              → lookup key config'.status.watched_resource_hashes
                ≡ after_items k
                    (q.waiting s.world)
                    key
                    (lookup key config.status.watched_resource_hashes))
    worker-records s config held built =
        let (empty, holds) =
          record_each (q.waiting s.world) (λ key. lookup key config.status.watched_resource_hashes)
            s refl built (config, held, λ key. refl) in
        (empty, holds.0, holds.1, holds.2)
