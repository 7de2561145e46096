-- ===== src/Tests/Queue.antt =====
-- A queue that holds two items, and a cluster that refuses every write of a status.
use reloader_operator.Base.{
  ℕ, suc, ◌≤◌, true, Option, none, some, List, [], ◌∷◌, ◌++◌, ◌≡◌, refl, ap,
}
use reloader_operator.Kube.{ok}
use reloader_operator.Platform.{Platform, State}
use reloader_operator.Controller.WorkItem.{StatusUpdateWorkItem}
use reloader_operator.Controller.StatusQueue.{config_item, target_item}
use reloader_operator.Controller.Status.{process_next_status_update, start_status_update_worker}
use reloader_operator.Controller.Status.WorkQueue.{WorkQueue}
use reloader_operator.Controller.Status.Drained.{worker-drains}
use reloader_operator.Controller.Status.Rounds.{Settled, processed, process_next-Settled}
use reloader_operator.Tests.Sample.{bare, refused, config, target}

abbrev Entry : Type 0
Entry = StatusUpdateWorkItem × ℕ

-- The world is a queue.
record Queue : Type 0 where
  entries : List Entry
  working : Option Entry

abbrev taken : List Entry → Option StatusUpdateWorkItem × Queue
taken [] = (none, record { entries = []; working = none })
taken (entry ∷ rest) = (some (entry.0), record { entries = rest; working = some entry })

abbrev count : Option Entry → ℕ
count none = 0
count (some (item, n)) = n

abbrev put_back : StatusUpdateWorkItem → Queue → Queue
put_back item w = record w { entries = w.entries ++ ((item, suc (count w.working)) ∷ []) }

abbrev refusing : Platform
refusing = record (bare Queue) {
  get_config = λ key w. (ok config, w);
  update_status = λ config w. (some refused, w);
  queue_add = λ item w. record w { entries = w.entries ++ ((item, 0) ∷ []) };
  queue_get = λ w. taken w.entries;
  queue_num_requeues = λ item w. (count w.working, w);
  queue_add_rate_limited = put_back;
  queue_done = λ item w. record w { working = none };
}

taken_first :
    (item : StatusUpdateWorkItem) (n : ℕ) (rest : List Entry) (entries : List Entry)
    → entries ≡ (item, n) ∷ rest
    → ((taken entries).0 ≡ some item)
      × ((taken entries).1.entries ≡ rest)
      × ((taken entries).1.working ≡ some (item, n))
taken_first item n rest entries h = rw h (refl, refl, refl)

counted :
    (item : StatusUpdateWorkItem) (n : ℕ) (w : Queue)
    → w.working ≡ some (item, n)
    → (put_back item w).entries ≡ w.entries ++ ((item, suc n) ∷ [])
counted item n w h = ap (λ o. w.entries ++ ((item, suc (count o)) ∷ [])) h

abbrev queue : WorkQueue refusing
queue = record {
  waiting = λ w. w.entries;
  current = λ w. w.working;
  get = λ w h. taken_first _ _ _ w.entries h;
  num_requeues = λ w h. (ap count h, refl, refl);
  add_rate_limited = λ w h. counted _ _ w h;
  forget = λ item w. refl;
  done = λ item w. refl;
  get_config = λ key w. (refl, refl);
  update_status = λ config w. (refl, refl);
  now = λ w. (refl, refl);
}

abbrev filled : State Queue
filled = record {
  world = record {
    entries =
        (config_item "shop" "Secret" "db" "2c26" config, 0)
        ∷ (target_item config target "", 3)
        ∷ [];
    working = none;
  };
  calls = [];
}

worker-drains_example :
    (rounds : ℕ) × (rounds ≤ 9)
    × ((start_status_update_worker refusing rounds filled).0 ≡ true)
    × ((start_status_update_worker refusing rounds filled).1.world.entries ≡ [])
worker-drains_example = worker-drains refusing queue filled

-- The first item is put back, since the write is refused.
process_next-Settled_example :
    ((process_next_status_update refusing filled).0 ≡ true)
    × Settled refusing queue
        (config_item "shop" "Secret" "db" "2c26" config)
        0
        ((target_item config target "", 3) ∷ [])
        (processed refusing queue (config_item "shop" "Secret" "db" "2c26" config) filled).0
        (processed refusing queue (config_item "shop" "Secret" "db" "2c26" config) filled).1.calls
        (process_next_status_update refusing filled).1
process_next-Settled_example =
    process_next-Settled refusing queue (config_item "shop" "Secret" "db" "2c26" config) 0
      ((target_item config target "", 3) ∷ []) filled refl
