-- ===== src/Tests/Storing.antt =====
-- A queue that holds three items, and a server that accepts each write of a status.
use reloader_operator.Base.{
  ℕ, suc, String, true, Option, none, some, List, [], ◌∷◌, ◌++◌, ◌≡◌, ◌≢◌, refl, ap, sym, ◌∙◌,
  arith, length, lookup, ◌==◌, if◌then◌else◌, inl, inr, Bool-cases,
}
use reloader_operator.Kube.{GoError, Result, ok, err, ObjectKey}
use reloader_operator.Api.{ReloaderConfig}
use reloader_operator.Platform.{Platform, State}
use reloader_operator.Util.Keys.{make_resource_key}
use reloader_operator.Controller.WorkItem.{StatusUpdateWorkItem}
use reloader_operator.Controller.StatusQueue.{
  config_key_of, config_item, target_item, update_reloader_config_statuses,
}
use reloader_operator.Controller.Status.{start_status_update_worker}
use reloader_operator.Controller.Status.WorkQueue.{WorkQueue}
use reloader_operator.Controller.Status.Stored.{kept_config}
use reloader_operator.Controller.Status.Store.{ConfigStore, same_key}
use reloader_operator.Controller.Status.Holds.{after_items, same_key-eq, same_key_refl}
use reloader_operator.Controller.Status.Recorded.{worker-records}
use reloader_operator.Controller.Status.Announced.{Adds, announced-recorded}
use reloader_operator.Tests.Sample.{bare, not_found, config, target}

abbrev Entry : Type 0
Entry = StatusUpdateWorkItem × ℕ

-- The queue, and the configs by their keys.
record Storage : Type 0 where
  entries : List Entry
  working : Option Entry
  configs : ObjectKey → Option ReloaderConfig

abbrev checked : ObjectKey → Option ReloaderConfig → Option ReloaderConfig
checked key none = none
checked key (some c) = if same_key (config_key_of c) key then some c else none

abbrev held : Storage → ObjectKey → Option ReloaderConfig
held w key = checked key (w.configs key)

abbrev answer : Option ReloaderConfig → Result ReloaderConfig
answer none = err not_found
answer (some c) = ok c

abbrev taken : Storage → List Entry → Option StatusUpdateWorkItem × Storage
taken w [] = (none, record w { working = none })
taken w (entry ∷ rest) = (some (entry.0), record w { entries = rest; working = some entry })

abbrev count : Option Entry → ℕ
count none = 0
count (some (item, n)) = n

abbrev put_back : StatusUpdateWorkItem → Storage → Storage
put_back item w = record w { entries = w.entries ++ ((item, suc (count w.working)) ∷ []) }

abbrev put_config : ReloaderConfig → Storage → Storage
put_config c w = record w {
  configs = λ key. if same_key key (config_key_of c) then some (kept_config c) else w.configs key;
}

abbrev accepting : Platform
accepting = record (bare Storage) {
  get_config = λ key w. (answer (held w key), w);
  update_status = λ c w. (none, put_config c w);
  queue_add = λ item w. record w { entries = w.entries ++ ((item, 0) ∷ []) };
  queue_get = λ w. taken w w.entries;
  queue_num_requeues = λ item w. (count w.working, w);
  queue_add_rate_limited = put_back;
  queue_done = λ item w. record w { working = none };
}

taken_first :
    (w : Storage) (item : StatusUpdateWorkItem) (n : ℕ) (rest : List Entry) (entries : List Entry)
    → entries ≡ (item, n) ∷ rest
    → ((taken w entries).0 ≡ some item)
      × ((taken w entries).1.entries ≡ rest)
      × ((taken w entries).1.working ≡ some (item, n))
taken_first w item n rest entries h = rw h (refl, refl, refl)

taken_keeps :
    (w : Storage) (k : ObjectKey) (entries : List Entry) → held (taken w entries).1 k ≡ held w k
taken_keeps w k [] = refl
taken_keeps w k (entry ∷ rest) = refl

abbrev queue : WorkQueue accepting
queue = record {
  waiting = λ w. w.entries;
  current = λ w. w.working;
  get = λ w h. taken_first w _ _ _ w.entries h;
  num_requeues = λ w h. (ap count h, refl, refl);
  add_rate_limited = λ w {item} {n} h. ap (λ o. w.entries ++ ((item, suc (count o)) ∷ [])) h;
  forget = λ item w. refl;
  done = λ item w. refl;
  get_config = λ key w. (refl, refl);
  update_status = λ c w. (refl, refl);
  now = λ w. (refl, refl);
}

checked_key :
    (key : ObjectKey) (o : Option ReloaderConfig) (c : ReloaderConfig)
    → checked key o ≡ some c
    → config_key_of c ≡ key
checked_key key none c h = absurd (cc)
checked_key key (some d) c h = elim (Bool-cases (same_key (config_key_of d) key)) [
  | inl e ↦
      let same : d ≡ c = ground (arith, h, e) in
      ap config_key_of (sym same) ∙ same_key-eq (config_key_of d) key e
  | inr e ↦ absurd (ground (arith, h, e))
]

missing :
    (o : Option ReloaderConfig)
    → o ≡ none
    → (e : GoError) × (e.is_not_found ≡ true) × (answer o ≡ err e)
missing o h = (not_found, refl, ap answer h)

put_stored :
    (c : ReloaderConfig) (w : Storage)
    → held (put_config c w) (config_key_of c) ≡ some (kept_config c)
put_stored c w = ground (arith, same_key_refl (config_key_of c))

put_others :
    (c : ReloaderConfig) (w : Storage) (key : ObjectKey)
    → key ≢ config_key_of c
    → held (put_config c w) key ≡ held w key
put_others c w key h = elim (Bool-cases (same_key key (config_key_of c))) [
  | inl e ↦ absurd (h (same_key-eq key (config_key_of c) e))
  | inr e ↦ rw e refl
]

abbrev store : ConfigStore accepting
store = record {
  stored = held;
  key_of = λ w key c h. checked_key key (w.configs key) c h;
  get_found = λ w key c h. ap answer h;
  get_missing = λ w key h. missing (held w key) h;
  update_accepted = λ c w. refl;
  update_stored = put_stored;
  update_others = put_others;
  get_keeps = λ key k w. refl;
  now_keeps = λ k w. refl;
  queue_get_keeps = λ k w. taken_keeps w k w.entries;
  forget_keeps = λ item k w. refl;
  done_keeps = λ item k w. refl;
}

abbrev entries : List Entry
entries =
    (config_item "shop" "Secret" "db" "2c26" config, 0)
    ∷ (target_item config target "", 0)
    ∷ (config_item "shop" "Secret" "db" "e3b0" config, 0)
    ∷ []

abbrev filled : State Storage
filled = record {
  world = record { entries = entries; working = none; configs = λ key. some config };
  calls = [];
}

worker-records_example :
    ((start_status_update_worker accepting 3 filled).1.world.entries ≡ [])
    × (config' : ReloaderConfig) × (held
          (start_status_update_worker accepting 3 filled).1.world
          (config_key_of config)
        ≡ some config')
    × ((key : String)
        → lookup key config'.status.watched_resource_hashes
          ≡ after_items (config_key_of config) entries key none)
worker-records_example =
    worker-records accepting store (config_key_of config) queue filled config refl
      (inl refl, (inr (refl, target, refl), (inl refl, tt)))

-- The later hash is the one that is kept.
last_hash : after_items (config_key_of config) entries "shop/Secret/db" none ≡ some "e3b0"
unfolding reloader_operator.Controller.Status.Holds.after_item
    reloader_operator.Util.Keys.make_resource_key
last_hash = refl

abbrev adds : Adds accepting queue store
adds = record { add = λ item w rests. (rests, inr (0, refl)); add_keeps = λ item k w. refl }

abbrev other_config : ReloaderConfig
other_config = record config { name = "other" }

abbrev idle : State Storage
idle = record {
  world = record { entries = []; working = none; configs = λ key. some config };
  calls = [];
}

announced-recorded_example :
    (let queued =
        (update_reloader_config_statuses accepting
          (other_config ∷ config ∷ config ∷ [])
          "shop"
          "Secret"
          "db"
          "2c26"
          idle).1 in
      let worked = (start_status_update_worker accepting (length queued.world.entries) queued).1 in
      (worked.world.entries ≡ [])
      × (new : ReloaderConfig) × (held worked.world (config_key_of config) ≡ some new)
      × ((key : String)
          → lookup key new.status.watched_resource_hashes ≡ (
              if make_resource_key "shop" "Secret" "db" == key
              then some "2c26"
              else lookup key config.status.watched_resource_hashes)))
announced-recorded_example =
    announced-recorded "shop" "Secret" "db" "2c26" accepting store queue adds idle
      (other_config ∷ []) (config ∷ []) config config refl refl refl
