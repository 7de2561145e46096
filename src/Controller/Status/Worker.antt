-- ===== src/Controller/Status/Worker.antt =====
-- What follows an attempt to write a status.
use reloader_operator.Base.{ℕ, true, none, some, ◌∷◌, ◌≡◌, arith, ltb, if◌then◌else◌}
use reloader_operator.Kube.{Failure}
use reloader_operator.Platform.{Platform, State, Call, requeued, forgot, finished}
use reloader_operator.Controller.WorkItem.{StatusUpdateWorkItem}
use reloader_operator.Controller.Status.{
  process_next_status_update, process_status_update, settle, retry_or_forget,
}

-- What becomes of an item after an attempt, by its error and the times it was put back.
abbrev pub settlement : StatusUpdateWorkItem → Failure → ℕ → Call
settlement item none requeues = forgot item
settlement item (some e) requeues = if ltb requeues 5 then requeued item else forgot item

module _ (p : Platform) (item : StatusUpdateWorkItem) (s : State p.World) where
  abbrev pub taken : State p.World
  taken = record s { world = (p.queue_get s.world).1 }

  abbrev pub attempted : State p.World
  attempted = (process_status_update p item taken).1

  abbrev pub requeues : ℕ
  requeues = (p.queue_num_requeues item attempted.world).0

  -- An item that is taken from the queue is settled, with `Done` last: after a success it is
  -- forgotten; after a failure it is put back while it was put back fewer than five times, and is
  -- forgotten otherwise. The worker goes on in all cases.
  pub process_next_status_update-settles :
      (p.queue_get s.world).0 ≡ some item
      → ((process_next_status_update p s).0 ≡ true)
        × ((process_next_status_update p s).1.calls
            ≡ finished item
              ∷ settlement item (process_status_update p item taken).0 requeues
              ∷ attempted.calls)
  unfolding process_next_status_update settle retry_or_forget
  process_next_status_update-settles h = ground arith
