-- ===== src/Controller/Status/Holds.antt =====
-- What an item does to the table of hashes of a config that is stored.
use reloader_operator.Base.{
  ℕ, String, true, false, Option, none, some, List, [], ◌∷◌, ◌≡◌, ◌≢◌, ◌⊎◌, ◌∙◌, inl, inr, refl,
  sym, ap, subst, arith, eq_iff, eq_refl, ◌==◌, ◌&&◌, Bool-cases, lookup, if◌then◌else◌,
}
use reloader_operator.Kube.{ObjectKey, Failure}
use reloader_operator.Api.{Time, ReloaderConfig}
use reloader_operator.Platform.{Platform, State}
use reloader_operator.Util.Keys.{make_resource_key}
use reloader_operator.Workload.Target.{Target}
use reloader_operator.Controller.WorkItem.{
  StatusUpdateWorkItem, status_update_type_reloader_config, status_update_type_target,
}
use reloader_operator.Controller.StatusQueue.{config_key_of}
use reloader_operator.Controller.Status.{
  success_time, config_status_after, target_status_after, update_reloader_config_status_direct,
  update_target_status_direct, apply_status_update,
}
use reloader_operator.Controller.Status.Entries.{lookup-config_status_after}
use reloader_operator.Controller.Status.Stored.{kept_config}
use reloader_operator.Controller.Status.Store.{ConfigStore, same_key}

-- An item as the controller builds them: for a resource, or for a target that it holds.
abbrev pub IsBuilt : StatusUpdateWorkItem × ℕ → Type 0
IsBuilt (item, n) =
    (item.update_type ≡ status_update_type_reloader_config)
    ⊎ ((item.update_type ≡ status_update_type_target)
        × (target : Target) × (item.target ≡ some target))

module _ (k : ObjectKey) where
  -- What the table of the config at the key reads after an item, and after a queue of items in order.
  unfoldable pub after_item : StatusUpdateWorkItem → String → Option String → Option String
  after_item item key old =
      if item.update_type == status_update_type_reloader_config
        && same_key item.config_key k
        && (make_resource_key item.resource_namespace item.resource_kind item.resource_name == key)
      then (if item.new_hash == "" then none else some item.new_hash)
      else old

  abbrev pub after_items : List (StatusUpdateWorkItem × ℕ) → String → Option String → Option String
  after_items [] key old = old
  after_items ((item, n) ∷ rest) key old = after_items rest key (after_item item key old)

module _ (k : ObjectKey) (item : StatusUpdateWorkItem) (key : String) (old : Option String) where
  pub after_item-other : same_key item.config_key k ≡ false → after_item k item key old ≡ old
  unfolding after_item
  after_item-other e = ground (arith, e)

  after_item-target :
      (item.update_type == status_update_type_reloader_config) ≡ false
      → after_item k item key old ≡ old
  unfolding after_item
  after_item-target e = ground (arith, e)

  after_item-config :
      (item.update_type == status_update_type_reloader_config) ≡ true
      → same_key item.config_key k ≡ true
      → after_item k item key old ≡ (
          if make_resource_key item.resource_namespace item.resource_kind item.resource_name == key
          then (if item.new_hash == "" then none else some item.new_hash)
          else old)
  unfolding after_item
  after_item-config e e' = ground (arith, e, e')

pub same_key-eq : (a b : ObjectKey) → same_key a b ≡ true → a ≡ b
same_key-eq a b h =
    let namespaces : a.namespace ≡ b.namespace = ground (arith, eq_iff a.namespace b.namespace) in
    let names : a.name ≡ b.name = ground (arith, eq_iff a.name b.name) in
    λ i. record { namespace = namespaces i; name = names i }

pub same_key_refl : (a : ObjectKey) → same_key a a ≡ true
same_key_refl a = rw (eq_refl a.namespace, eq_refl a.name) refl

module _ (p : Platform) (store : ConfigStore p) (k : ObjectKey) where
  -- The config at the key is stored, and its table reads as the view.
  abbrev pub Holds : (String → Option String) → p.World → Type 0
  Holds view w =
      (config : ReloaderConfig) × (store.stored w k ≡ some config)
      × ((key : String) → lookup key config.status.watched_resource_hashes ≡ view key)

  module _ (item : StatusUpdateWorkItem) (view : String → Option String) where
    -- What a write of the config of the item, `fetched`, as `config'` leaves.
    write-Holds :
        (fetched config' : ReloaderConfig) (w : p.World)
        → config_key_of config' ≡ item.config_key
        → store.stored w item.config_key ≡ some fetched
        → Holds view w
        → (same_key item.config_key k ≡ true
            → (key : String)
            → lookup key config'.status.watched_resource_hashes
              ≡ after_item k item key (lookup key fetched.status.watched_resource_hashes))
        → Holds (λ key. after_item k item key (view key)) (p.update_status config' w).1
    write-Holds fetched config' w named found (config, held, reads) h =
        elim (Bool-cases (same_key item.config_key k)) [
          | inl e ↦
              let same = same_key-eq item.config_key k e in
              let one : some fetched ≡ some config =
                sym found ∙ (ap (store.stored w) same ∙ held) in
              let is_fetched : fetched ≡ config = cc in
              (
                kept_config config',
                subst
                    (λ key.
                      store.stored (p.update_status config' w).1 key ≡ some (kept_config config'))
                    (named ∙ same) (store.update_stored config' w),
                λ key.
                    h e key
                    ∙ ap
                        (λ (c : ReloaderConfig).
                          after_item k item key (lookup key c.status.watched_resource_hashes))
                        is_fetched
                    ∙ ap (after_item k item key) (reads key),
              )
          | inr e ↦ (
            config,
            store.update_others config' w k (differs e) ∙ held,
            λ key. reads key ∙ sym (after_item-other k item key (view key) e),
          )
        ]
      where
        differs : same_key item.config_key k ≡ false → k ≢ config_key_of config'
        differs e same =
            let true_of : same_key item.config_key k ≡ true =
              ap (λ a. same_key a k) (sym (same ∙ named)) ∙ same_key_refl k in
            absurd (cc)

    pub config_item-Holds :
        (fetched : ReloaderConfig) (s : State p.World)
        → config_key_of fetched ≡ item.config_key
        → store.stored s.world item.config_key ≡ some fetched
        → item.update_type ≡ status_update_type_reloader_config
        → Holds view s.world
        → ((apply_status_update p item fetched s).0 ≡ none)
          × Holds
              (λ key. after_item k item key (view key))
              (apply_status_update p item fetched s).1.world
    unfolding apply_status_update update_reloader_config_status_direct
    config_item-Holds fetched s named found kind (config, held, reads) =
        let now : Time = (p.now s.world).0 in
        let config' : ReloaderConfig = record fetched {
          status =
              config_status_after now item.resource_namespace item.resource_kind item.resource_name
                item.new_hash fetched.status;
        } in
        let is_config : (item.update_type == status_update_type_reloader_config) ≡ true =
          ap (λ t. t == status_update_type_reloader_config) kind in
        rw is_config (
          store.update_accepted config' _,
          write-Holds fetched config' (p.now s.world).1 named
              (store.now_keeps item.config_key s.world ∙ found)
              (config, store.now_keeps k s.world ∙ held, reads)
              (λ e key.
                lookup-config_status_after now item.resource_namespace item.resource_kind
                  item.resource_name item.new_hash fetched.status key
                ∙ sym (after_item-config k item key _ is_config e)),
        )

    success_time-keeps :
        (error_msg : String) (s : State p.World) (key : ObjectKey)
        → store.stored (success_time p error_msg s).1.world key ≡ store.stored s.world key
    success_time-keeps error_msg s key = elim (Bool-cases (error_msg == "")) [
      | inl e ↦ rw e (store.now_keeps key s.world)
      | inr e ↦ rw e refl
    ]

    target_item-applied :
        (fetched : ReloaderConfig) (target : Target) (s : State p.World)
        → item.update_type ≡ status_update_type_target
        → item.target ≡ some target
        → apply_status_update p item fetched s
          ≡ update_target_status_direct p fetched target item.error_msg s
    unfolding apply_status_update
    target_item-applied fetched target s kind t =
        let no_config : (item.update_type == status_update_type_reloader_config) ≡ false =
          ap (λ t. t == status_update_type_reloader_config) kind in
        let is_target : (item.update_type == status_update_type_target) ≡ true =
          ap (λ t. t == status_update_type_target) kind in
        ground (arith, no_config, is_target, t)

    pub target_item-Holds :
        (fetched : ReloaderConfig) (target : Target) (s : State p.World)
        → config_key_of fetched ≡ item.config_key
        → store.stored s.world item.config_key ≡ some fetched
        → item.update_type ≡ status_update_type_target
        → item.target ≡ some target
        → Holds view s.world
        → ((apply_status_update p item fetched s).0 ≡ none)
          × Holds
              (λ key. after_item k item key (view key))
              (apply_status_update p item fetched s).1.world
    unfolding update_target_status_direct
    target_item-Holds fetched target s named found kind t (config, held, reads) =
        let now : Time = (success_time p item.error_msg s).0 in
        let config' : ReloaderConfig = record fetched {
          status = record (fetched.status) {
            target_status =
                target_status_after now p.parse_duration target item.error_msg
                  fetched.status.target_status;
          };
        } in
        let no_config : (item.update_type == status_update_type_reloader_config) ≡ false =
          ap (λ t. t == status_update_type_reloader_config) kind in
        subst
          (λ (r : Failure × State p.World).
            (r.0 ≡ none) × Holds (λ key. after_item k item key (view key)) r.1.world)
          (sym (target_item-applied fetched target s kind t))
          (
            store.update_accepted config' _,
            write-Holds fetched config' (success_time p item.error_msg s).1.world named
                (success_time-keeps item.error_msg s item.config_key ∙ found)
                (config, success_time-keeps item.error_msg s k ∙ held, reads)
                (λ e key. sym (after_item-target k item key _ no_config)),
          )
