-- ===== src/Controller/Status/WorkQueue.antt =====
-- What the status worker relies on of its queue, which is a part of the platform.
use reloader_operator.Base.{ℕ, suc, ◌+◌, ◌-◌, Option, some, List, [], ◌∷◌, ◌++◌, ◌≡◌, arith}
use reloader_operator.Kube.{ObjectKey}
use reloader_operator.Api.{ReloaderConfig}
use reloader_operator.Platform.{Platform}
use reloader_operator.Controller.WorkItem.{StatusUpdateWorkItem}

-- A queue as its documentation tells it: the items that wait, each with the times it was put back, and
-- the item that is worked on. Nobody else adds items, and the client does not touch the queue. The delay
-- before an item that is put back waits again is left out.
pub record WorkQueue (p : Platform) : Type 0 where
  pub waiting : p.World → List (StatusUpdateWorkItem × ℕ)
  pub current : p.World → Option (StatusUpdateWorkItem × ℕ)
  -- `Get` takes the first item.
  pub get :
      (w : p.World) {item : StatusUpdateWorkItem} {n : ℕ} {rest : List (StatusUpdateWorkItem × ℕ)}
      → waiting w ≡ (item, n) ∷ rest
      → ((p.queue_get w).0 ≡ some item)
        × (waiting (p.queue_get w).1 ≡ rest)
        × (current (p.queue_get w).1 ≡ some (item, n))
  -- `NumRequeues` counts, `AddRateLimited` puts the item back and counts, `Forget` and `Done` put
  -- nothing back.
  pub num_requeues :
      (w : p.World) {item : StatusUpdateWorkItem} {n : ℕ}
      → current w ≡ some (item, n)
      → ((p.queue_num_requeues item w).0 ≡ n)
        × (waiting (p.queue_num_requeues item w).1 ≡ waiting w)
        × (current (p.queue_num_requeues item w).1 ≡ current w)
  pub add_rate_limited :
      (w : p.World) {item : StatusUpdateWorkItem} {n : ℕ}
      → current w ≡ some (item, n)
      → waiting (p.queue_add_rate_limited item w) ≡ waiting w ++ ((item, suc n) ∷ [])
  pub forget :
      (item : StatusUpdateWorkItem) (w : p.World) → waiting (p.queue_forget item w) ≡ waiting w
  pub done : (item : StatusUpdateWorkItem) (w : p.World) → waiting (p.queue_done item w) ≡ waiting w
  -- The client and the clock
  pub get_config :
      (key : ObjectKey) (w : p.World)
      → (waiting (p.get_config key w).1 ≡ waiting w) × (current (p.get_config key w).1 ≡ current w)
  pub update_status :
      (config : ReloaderConfig) (w : p.World)
      → (waiting (p.update_status config w).1 ≡ waiting w)
        × (current (p.update_status config w).1 ≡ current w)
  pub now : (w : p.World) → (waiting (p.now w).1 ≡ waiting w) × (current (p.now w).1 ≡ current w)

-- The attempts that are left of the items in a queue: six for an item that was not put back.
abbrev pub attempts_left : List (StatusUpdateWorkItem × ℕ) → ℕ
attempts_left [] = 0
attempts_left ((item, n) ∷ rest) = suc (5 - n) + attempts_left rest

pub attempts_left-append :
    (queue : List (StatusUpdateWorkItem × ℕ)) (item : StatusUpdateWorkItem) (n : ℕ)
    → attempts_left (queue ++ ((item, n) ∷ [])) ≡ attempts_left queue + suc (5 - n)
attempts_left-append [] item n = omega arith
attempts_left-append ((i, m) ∷ rest) item n = omega (arith, attempts_left-append rest item n)
