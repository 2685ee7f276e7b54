-- ===== src/Carrier/Worker/Loop.antt =====
-- New and Start of services/carrier-sync-service/internal/worker/worker.go: the worker runs a cycle
-- at once, and one at every tick, until its context is done. What the interval and the timeouts are
-- is left out.
pub mod Memory
use trackflow.Prelude.{ℤ, pos, lebℤ, List, [], ◌∷◌, Option, none, some, if◌then◌else◌}
use trackflow.Carrier.Model.{StatusUpdate}
use trackflow.Carrier.Backoff.{Retry}
use trackflow.Carrier.Service.{SyncService, store_last_known}
use trackflow.Carrier.Worker.{Worker, TrackingStatusClient, Context, Report, run_once}

-- What the select of the loop receives: a tick, or the end of the context. Before a tick, syncs
-- that the HTTP handler made have fetched `others`, and the rest of the state has moved.
pub data Event (S : Type 0) : Type 0 where
  tick : List (List StatusUpdate) → (S → S) → Event S
  done : Event S

unfoldable pub store_all : List (List StatusUpdate) → List StatusUpdate → List StatusUpdate
store_all [] known = known
store_all (updates ∷ others) known = store_all others (store_last_known updates known)

module _ {S : Type 0} where
  unfoldable pub new : SyncService S → TrackingStatusClient S → ℤ → Retry S → Context S → Worker S
  new svc tracking_client batch_size retry context = record {
    svc = svc;
    tracking_client = tracking_client;
    batch_size = if lebℤ batch_size (pos 0) then pos 5 else batch_size;
    retry = retry;
    context = context;
  }

  unfoldable pub loop :
      Worker S → List (Event S) → List StatusUpdate × S → List Report × (List StatusUpdate × S)
  loop w [] st = ([], st)
  loop w (done ∷ events) st = ([], st)
  loop w (tick others meanwhile ∷ events) (known, st) =
      let (report, after) = run_once w (store_all others known, meanwhile st) in
      let (reports, last) = loop w events after in (report ∷ reports, last)

  -- Start, for a worker whose service and client are there: none stands for one without.
  unfoldable pub start :
      Option (Worker S)
      → List (Event S)
      → List StatusUpdate × S
      → List Report × (List StatusUpdate × S)
  unfolding loop
  start none events st = ([], st)
  start (some w) events st =
      let (report, after) = run_once w st in
      let (reports, last) = loop w events after in (report ∷ reports, last)
