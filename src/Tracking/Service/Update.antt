-- ===== src/Tracking/Service/Update.antt =====
-- What UpdateOrderStatus of services/tracking-service/internal/service/service.go does, around
-- the repository that it is given.
use mathlib.Core.Path.{subst}
use trackflow.Prelude.{Option, none, ◌≡◌, err, Result, ok, true, arith, some, sym, refl}
use trackflow.Prelude.Action.{proceed}
use trackflow.Text.{Text, trim_space}
use trackflow.Tracking.Error.{Error, is_invalid_input}
use trackflow.Tracking.Model.{StatusHistoryItem, UpdateStatusInput}
use trackflow.Tracking.Service.{
  TimelineCache, OrderCacheInvalidator, Notifier, TrackingService, Repository, update_order_status,
  checked_id, checked_status, checked_source, publish, update_with, with_repo-some,
}
use trackflow.Tracking.Service.Validation.{
  checked_id-invalid, checked_status-invalid, checked_source-invalid,
}

module _ {S : Type 0} where
  -- The state that each of the three calls behind the commit leaves, if it is made at all.
  abbrev pub timeline_dropped : Option (TimelineCache S) → Text → S → S
  timeline_dropped none id st = st
  timeline_dropped (some cache) id st = (cache.delete_timeline id st).1

  abbrev pub order_dropped : Option (OrderCacheInvalidator S) → Text → S → S
  order_dropped none id st = st
  order_dropped (some cache) id st = (cache.delete_order id st).1

  abbrev pub notified : Option (Notifier S) → StatusHistoryItem → S → S
  notified none item st = st
  notified (some notifier) item st = (notifier.notify_status_changed item st).1

  abbrev pub announced : TrackingService S → Text → StatusHistoryItem → S → S
  announced svc id item st =
      notified svc.notifier item
        (order_dropped svc.order_cache id (timeline_dropped svc.timeline_cache id st))

  -- Whatever the caches and the notifier answer, the item is returned.
  publish-ok :
      (svc : TrackingService S) (id : Text) (item : StatusHistoryItem) (st : S)
      → publish svc id item st ≡ (ok item, announced svc id item st)
  unfolding publish
  publish-ok svc id item st = ground arith

module _ {S : Type 0} (svc : TrackingService S) (repo : Repository S) (order_id : Text)
    (input : UpdateStatusInput) (st : S) where
  abbrev pub stored : Text → Text → Text → Result Error StatusHistoryItem × S
  stored id status source =
      repo.update_order_status id status source (trim_space input.comment) input.metadata st

  -- The ways in which an update ends: rejected before the repository is asked, failed there, or
  -- stored and then published.
  pub data Attempt : Result Error StatusHistoryItem × S → Type 0 where
    rejected : (e : Error) → is_invalid_input e ≡ true → Attempt (err e, st)
    failed :
        (id status source : Text) (e : Error) (st' : S)
        → checked_id order_id ≡ ok id
        → checked_status input.status ≡ ok status
        → checked_source input.source ≡ ok source
        → stored id status source ≡ (err e, st')
        → Attempt (err e, st')
    done :
        (id status source : Text) (item : StatusHistoryItem) (st' : S)
        → checked_id order_id ≡ ok id
        → checked_status input.status ≡ ok status
        → checked_source input.source ≡ ok source
        → stored id status source ≡ (ok item, st')
        → Attempt (ok item, announced svc id item st')

  stored-Attempt :
      (id status source : Text)
      → checked_id order_id ≡ ok id
      → checked_status input.status ≡ ok status
      → checked_source input.source ≡ ok source
      → (r : Result Error StatusHistoryItem × S) → stored id status source ≡ r
      → Attempt (proceed r (publish svc id))
  stored-Attempt id status source hi hs hc (ok item, st') e =
      rw (publish-ok svc id item st') (done id status source item st' hi hs hc e)
  stored-Attempt id status source hi hs hc (err x, st') e = failed id status source x st' hi hs hc e

  -- The update behind its three checks.
  checked-Attempt :
      (i s c : Result Error Text)
      → checked_id order_id ≡ i
      → checked_status input.status ≡ s
      → checked_source input.source ≡ c
      → Attempt (update_with svc repo order_id input st)
  unfolding update_with
  checked-Attempt (err e) s c hi hs hc = rw hi (rejected e (checked_id-invalid order_id hi))
  checked-Attempt (ok id) (err e) c hi hs hc =
      rw (hi, hs) (rejected e (checked_status-invalid input.status hs))
  checked-Attempt (ok id) (ok s) (err e) hi hs hc =
      rw (hi, hs, hc) (rejected e (checked_source-invalid input.source hc))
  checked-Attempt (ok id) (ok s) (ok c) hi hs hc =
      rw (hi, hs, hc) (stored-Attempt id s c hi hs hc _ refl)

  -- Every update ends in one of three ways. An invalid request is rejected with the state as it
  -- was. An error of the repository is returned as it is, and nothing is invalidated or notified.
  -- An item that the repository returns is returned, after the two caches have been invalidated
  -- and the notifier has been called, whatever those three answer.
  pub update_order_status-Attempt :
      svc.repo ≡ some repo → Attempt (update_order_status svc order_id input st)
  unfolding update_order_status
  update_order_status-Attempt h =
      subst (λ f. Attempt (f st))
        (sym (with_repo-some svc.repo (λ repo. update_with svc repo order_id input) h))
        (checked-Attempt _ _ _ refl refl refl)
