-- ===== src/Tracking/Service.antt =====
-- services/tracking-service/internal/service/service.go
-- `S` is the state of everything outside the service: database, caches, notification service.
pub mod Validation
pub mod Timeline
pub mod Update
use trackflow.Prelude.{
  ℕ, Bool, true, false, not, ◌||◌, List, length, take, leb, Option, none, some, Result, ok, err,
  fail_if, if◌then◌else◌, ℤ, pos, lebℤ, pos_part, ◌++◌, ◌≡◌,
}
use trackflow.Prelude.Action.{Action, pure, raise, ◌>>=◌, ◌>>◌, lift, ignoring}
use trackflow.Text.{Text, text, trim_space, is_empty}
use trackflow.Text.Uuid.{is_uuid}
use trackflow.Tracking.Error.{Error, invalid_input, repository_not_configured, message}
use trackflow.Tracking.Model.{StatusHistoryItem, UpdateStatusInput}
use trackflow.Tracking.Status.{normalize_status, normalize_status_source, source_system}

abbrev pub default_timeline_limit : ℤ
default_timeline_limit = pos 50

abbrev pub max_timeline_limit : ℤ
max_timeline_limit = pos 200

-- Nanoseconds, as Go's time.Duration.
abbrev pub default_timeline_cache_ttl : ℤ
default_timeline_cache_ttl = pos 15_000_000_000

pub record Repository (S : Type 0) : Type 0 where
  pub ping : Action S Error (Unit {0})
  pub get_order_timeline : Text → ℤ → Action S Error (List StatusHistoryItem)
  pub update_order_status : Text → Text → Text → Text → Text → Action S Error StatusHistoryItem

pub record Notifier (S : Type 0) : Type 0 where
  pub notify_status_changed : StatusHistoryItem → Action S Error (Unit {0})

-- `get_timeline` returns nothing for `found == false`.
pub record TimelineCache (S : Type 0) : Type 0 where
  pub get_timeline : Text → Action S Error (Option (List StatusHistoryItem))
  pub set_timeline : Text → List StatusHistoryItem → ℤ → Action S Error (Unit {0})
  pub delete_timeline : Text → Action S Error (Unit {0})

pub record OrderCacheInvalidator (S : Type 0) : Type 0 where
  pub delete_order : Text → Action S Error (Unit {0})

-- A nil interface is `none`.
pub record TrackingService (S : Type 0) : Type 0 where
  pub repo : Option (Repository S)
  pub notifier : Option (Notifier S)
  pub timeline_cache : Option (TimelineCache S)
  pub timeline_cache_ttl : ℤ
  pub order_cache : Option (OrderCacheInvalidator S)

validation_error : Text → Error
validation_error what = invalid_input what

unfoldable pub normalize_limit : ℤ → ℤ
normalize_limit limit =
    if lebℤ limit (pos 0)
    then default_timeline_limit
    else if lebℤ limit max_timeline_limit
    then limit
    else max_timeline_limit

unfoldable pub slice_timeline {ℓ} : {A : Type ℓ} → List A → ℤ → List A
slice_timeline items limit =
    if lebℤ limit (pos 0) || leb (length items) (pos_part limit)
    then items
    else take (pos_part limit) items

-- The checks that open both operations.
unfoldable pub checked_id : Text → Result Error Text
unfolding validation_error
checked_id order_id =
    let id = trim_space order_id in
    if is_empty id
    then err (validation_error (text "order_id is required"))
    else if is_uuid id
    then ok id
    else err (validation_error (text "order_id must be a valid UUID"))

abbrev as_invalid {ℓ} : {A : Type ℓ} → Result Error A → Result Error A
as_invalid (ok a) = ok a
as_invalid (err e) = err (invalid_input (message e))

unfoldable pub checked_status : Text → Result Error Text
checked_status status = as_invalid (normalize_status status)

unfoldable pub checked_source : Text → Result Error Text
checked_source source =
    let value = trim_space source in
    as_invalid (normalize_status_source (if is_empty value then source_system else value))

module _ {S : Type 0} where
  noop_notifier : Notifier S
  noop_notifier = record { notify_status_changed = λ item. pure tt }

  unfoldable pub new : Option (Repository S) → TrackingService S
  unfolding noop_notifier
  new repo = record {
    repo = repo;
    notifier = some noop_notifier;
    timeline_cache = none;
    timeline_cache_ttl = default_timeline_cache_ttl;
    order_cache = none;
  }

  unfoldable pub set_notifier : TrackingService S → Option (Notifier S) → TrackingService S
  unfolding noop_notifier
  set_notifier s none = record s { notifier = some noop_notifier }
  set_notifier s (some notifier) = record s { notifier = some notifier }

  unfoldable pub set_timeline_cache :
      TrackingService S → Option (TimelineCache S) → ℤ → TrackingService S
  set_timeline_cache s cache ttl = record s {
    timeline_cache = cache;
    timeline_cache_ttl = if lebℤ ttl (pos 0) then default_timeline_cache_ttl else ttl;
  }

  unfoldable pub set_order_cache_invalidator :
      TrackingService S → Option (OrderCacheInvalidator S) → TrackingService S
  set_order_cache_invalidator s invalidator = record s { order_cache = invalidator }

  with_repo :
      {A : Type 0} → Option (Repository S) → (Repository S → Action S Error A) → Action S Error A
  with_repo none f = raise repository_not_configured
  with_repo (some repo) f = f repo

  with_repo-some :
      {A : Type 0} (o : Option (Repository S)) (f : Repository S → Action S Error A)
      {repo : Repository S}
      → o ≡ some repo
      → with_repo o f ≡ f repo
  unfolding with_repo
  with_repo-some o f h = rw h

  pub health : TrackingService S → Action S Error (Unit {0})
  unfolding with_repo
  health s = with_repo s.repo λ repo. repo.ping

  -- A read error counts as a miss.
  found_or_miss : {A : Type 0} → Result Error (Option A) × S → Result Error (Option A) × S
  found_or_miss (ok found, st) = (ok found, st)
  found_or_miss (err e, st) = (ok none, st)

  unfoldable pub cached_timeline :
      Option (TimelineCache S) → Text → Action S Error (Option (List StatusHistoryItem))
  unfolding found_or_miss
  cached_timeline none id = pure none
  cached_timeline (some cache) id = λ st. found_or_miss (cache.get_timeline id st)

  unfoldable pub cache_timeline :
      Option (TimelineCache S) → ℤ → Text → List StatusHistoryItem → Action S Error (Unit {0})
  cache_timeline none ttl id items = pure tt
  cache_timeline (some cache) ttl id items = ignoring (cache.set_timeline id items ttl)

  unfoldable pub invalidate_timeline : Option (TimelineCache S) → Text → Action S Error (Unit {0})
  invalidate_timeline none id = pure tt
  invalidate_timeline (some cache) id = ignoring (cache.delete_timeline id)

  unfoldable pub invalidate_order_cache :
      Option (OrderCacheInvalidator S) → Text → Action S Error (Unit {0})
  invalidate_order_cache none id = pure tt
  invalidate_order_cache (some cache) id = ignoring (cache.delete_order id)

  unfoldable pub dispatch_notification :
      Option (Notifier S) → StatusHistoryItem → Action S Error (Unit {0})
  dispatch_notification none item = pure tt
  dispatch_notification (some notifier) item = ignoring (notifier.notify_status_changed item)

  load_timeline :
      TrackingService S
      → Repository S
      → Text
      → ℤ
      → Option (List StatusHistoryItem)
      → Action S Error (List StatusHistoryItem)
  load_timeline s repo id limit (some items) = pure (slice_timeline items limit)
  load_timeline s repo id limit none = do
    items ← repo.get_order_timeline id max_timeline_limit
    cache_timeline s.timeline_cache s.timeline_cache_ttl id items
    pure (slice_timeline items limit)

  read_with : TrackingService S → Repository S → Text → ℤ → Action S Error (List StatusHistoryItem)
  read_with s repo order_id limit = do
    id ← lift (checked_id order_id)
    found ← cached_timeline s.timeline_cache id
    load_timeline s repo id (normalize_limit limit) found

  unfoldable pub get_order_timeline :
      TrackingService S → Text → ℤ → Action S Error (List StatusHistoryItem)
  unfolding with_repo cached_timeline load_timeline cache_timeline read_with
  get_order_timeline s order_id limit = with_repo s.repo λ repo. read_with s repo order_id limit

  -- What follows the commit: the caches are invalidated, and the notifier is called.
  unfoldable pub publish :
      TrackingService S → Text → StatusHistoryItem → Action S Error StatusHistoryItem
  unfolding invalidate_timeline invalidate_order_cache dispatch_notification
  publish s id item = do
    invalidate_timeline s.timeline_cache id
    invalidate_order_cache s.order_cache id
    dispatch_notification s.notifier item
    pure item

  update_with :
      TrackingService S → Repository S → Text → UpdateStatusInput → Action S Error StatusHistoryItem
  update_with s repo order_id input = do
    id ← lift (checked_id order_id)
    next_status ← lift (checked_status input.status)
    source ← lift (checked_source input.source)
    let comment = trim_space input.comment
    item ← repo.update_order_status id next_status source comment input.metadata
    publish s id item

  unfoldable pub update_order_status :
      TrackingService S → Text → UpdateStatusInput → Action S Error StatusHistoryItem
  unfolding with_repo update_with
  update_order_status s order_id input = with_repo s.repo λ repo. update_with s repo order_id input
