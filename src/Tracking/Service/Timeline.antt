-- ===== src/Tracking/Service/Timeline.antt =====
-- What GetOrderTimeline of services/tracking-service/internal/service/service.go does, around the
-- repository and the cache that it is given.
use mathlib.Core.Path.{subst}
use trackflow.Prelude.{
  ◌≡◌, Option, ℤ, List, ok, some, Result, sym, take, err, true, none, pos_part, refl,
}
use trackflow.Text.{Text}
use trackflow.Tracking.Error.{Error, is_invalid_input}
use trackflow.Tracking.Model.{StatusHistoryItem}
use trackflow.Tracking.Service.{
  TrackingService, Repository, get_order_timeline, checked_id, cached_timeline, cache_timeline,
  load_timeline, read_with, max_timeline_limit, normalize_limit, slice_timeline, with_repo-some,
  found_or_miss, TimelineCache,
}
use trackflow.Tracking.Service.Validation.{
  normalize_limit_bounds, slice_timeline_lem, checked_id-invalid,
}

-- The slice that a caller gets.
abbrev pub first_items : ℤ → List StatusHistoryItem → List StatusHistoryItem
first_items limit items = take (pos_part (normalize_limit limit)) items

slice_normal :
    (limit : ℤ) (items : List StatusHistoryItem)
    → slice_timeline items (normalize_limit limit) ≡ first_items limit items
slice_normal limit items =
    slice_timeline_lem items (normalize_limit limit) (normalize_limit_bounds limit).0

module _ {S : Type 0} where
  -- Reading the cache never fails.
  cached_timeline-ok :
      (o : Option (TimelineCache S)) (id : Text) (st : S)
      → (found : Option (List StatusHistoryItem)) × (cached_timeline o id st
          ≡ (ok found, (cached_timeline o id st).1))
  unfolding cached_timeline found_or_miss
  cached_timeline-ok none id st = (none, refl)
  cached_timeline-ok (some cache) id st = tidy (cache.get_timeline id st)
    where
      tidy :
          (r : Result Error (Option (List StatusHistoryItem)) × S)
          → (found : Option (List StatusHistoryItem)) × (found_or_miss r
              ≡ (ok found, (found_or_miss r).1))
      tidy (ok found, s) = (found, refl)
      tidy (err e, s) = (none, refl)

  cache_timeline-ok :
      (o : Option (TimelineCache S)) (ttl : ℤ) (id : Text) (items : List StatusHistoryItem) (st : S)
      → cache_timeline o ttl id items st ≡ (ok tt, (cache_timeline o ttl id items st).1)
  unfolding cache_timeline
  cache_timeline-ok none ttl id items st = refl
  cache_timeline-ok (some cache) ttl id items st = refl

module _ {S : Type 0} (svc : TrackingService S) (repo : Repository S) (order_id : Text) (limit : ℤ)
    (st : S) where
  -- The ways in which a read ends.
  pub data Reading : Result Error (List StatusHistoryItem) × S → Type 0 where
    rejected : (e : Error) → is_invalid_input e ≡ true → Reading (err e, st)
    hit :
        (id : Text) (items : List StatusHistoryItem) (st' : S)
        → checked_id order_id ≡ ok id
        → cached_timeline svc.timeline_cache id st ≡ (ok (some items), st')
        → Reading (ok (first_items limit items), st')
    failed :
        (id : Text) (e : Error) (st' st'' : S)
        → checked_id order_id ≡ ok id
        → cached_timeline svc.timeline_cache id st ≡ (ok none, st')
        → repo.get_order_timeline id max_timeline_limit st' ≡ (err e, st'')
        → Reading (err e, st'')
    loaded :
        (id : Text) (items : List StatusHistoryItem) (st' st'' : S)
        → checked_id order_id ≡ ok id
        → cached_timeline svc.timeline_cache id st ≡ (ok none, st')
        → repo.get_order_timeline id max_timeline_limit st' ≡ (ok items, st'')
        → Reading (
          ok (first_items limit items),
          (cache_timeline svc.timeline_cache svc.timeline_cache_ttl id items st'').1,
        )

  module _ (id : Text) (checked : checked_id order_id ≡ ok id) where
    fetched :
        (st' : S)
        → cached_timeline svc.timeline_cache id st ≡ (ok none, st')
        → (r : Result Error (List StatusHistoryItem) × S)
        → repo.get_order_timeline id max_timeline_limit st' ≡ r
        → Reading (load_timeline svc repo id (normalize_limit limit) none st')
    unfolding load_timeline
    fetched st' missed (err e, st'') h = rw h (failed id e st' st'' checked missed h)
    fetched st' missed (ok items, st'') h =
        rw
          (
            h,
            cache_timeline-ok svc.timeline_cache svc.timeline_cache_ttl id items st'',
            slice_normal limit items,
          )
          (loaded id items st' st'' checked missed h)

    looked_up :
        (found : Option (List StatusHistoryItem)) (st' : S)
        → cached_timeline svc.timeline_cache id st ≡ (ok found, st')
        → Reading (load_timeline svc repo id (normalize_limit limit) found st')
    looked_up none st' h = fetched st' h _ refl
    looked_up (some items) st' h =
        unfold load_timeline in (rw (slice_normal limit items) (hit id items st' checked h))

  checked_reading :
      (i : Result Error Text)
      → checked_id order_id ≡ i
      → Reading (read_with svc repo order_id limit st)
  unfolding read_with
  checked_reading (err e) h = rw h (rejected e (checked_id-invalid order_id h))
  checked_reading (ok id) h =
      let (found, read) = cached_timeline-ok svc.timeline_cache id st in
      rw (h, read) (looked_up id h found _ read)

  -- Every read of a timeline ends in one of four ways: an invalid id is rejected with the state as
  -- it was; a cached timeline is returned, cut to the normalized limit, with the database unread;
  -- without one, which a cache error counts as, the repository is asked for 200 items, and either
  -- its error is returned or its items are cached whole and returned, cut to the normalized limit,
  -- whatever the cache answers to that.
  pub get_order_timeline-Reading :
      svc.repo ≡ some repo → Reading (get_order_timeline svc order_id limit st)
  unfolding get_order_timeline
  get_order_timeline-Reading h =
      subst (λ f. Reading (f st))
        (sym (with_repo-some svc.repo (λ repo. read_with svc repo order_id limit) h))
        (checked_reading _ refl)
