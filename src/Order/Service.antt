-- ===== src/Order/Service.antt =====
-- services/order-service/internal/service/service.go
-- `S` is the state of everything outside the service: database and cache.
pub mod Creating
pub mod Attempt
use trackflow.Prelude.{
  ℤ, pos, lebℤ, Bool, true, false, List, Option, none, some, Result, ok, err, if◌then◌else◌, ◌≡◌,
  refl,
}
use trackflow.Prelude.Action.{Action, pure, raise, ◌>>=◌, ◌>>◌, lift, ignoring}
use trackflow.Text.{Text, text, trim_space, is_empty}
use trackflow.Order.Error.{
  Error, invalid_input, repository_not_configured, is_order_not_found, is_duplicate_idempotency,
}
use trackflow.Order.Model.{Order, CreateOrderInput, AssignOrderInput}
use trackflow.Order.Validation.{
  normalize_limit, checked_uuid, normalize_create_input, normalize_assign_input, invalid_if,
}

-- A minute, in nanoseconds.
abbrev pub default_cache_ttl : ℤ
default_cache_ttl = pos 60_000_000_000

pub record Repository (S : Type 0) : Type 0 where
  pub ping : Action S Error (Unit {0})
  pub list_orders : ℤ → Action S Error (List Order)
  pub get_order_by_id : Text → Action S Error Order
  pub assign_order : Text → AssignOrderInput → Action S Error Order
  pub create_order : CreateOrderInput → Text → Action S Error Order
  pub get_order_by_idempotency_key : Text → Action S Error Order

-- `get_order_by_id` returns nothing for `found == false`.
pub record OrderCache (S : Type 0) : Type 0 where
  pub get_order_by_id : Text → Action S Error (Option Order)
  pub set_order : Order → ℤ → Action S Error (Unit {0})

pub record OrderService (S : Type 0) : Type 0 where
  pub repo : Option (Repository S)
  pub cache : Option (OrderCache S)
  pub cache_ttl : ℤ

-- The key of CreateOrder, trimmed.
unfoldable pub checked_key : Text → Result Error Text
checked_key idempotency_key =
    let key = trim_space idempotency_key in
    if is_empty key then err (invalid_input (text "idempotency key is required")) else ok key

module _ {S : Type 0} where
  unfoldable pub new : Option (Repository S) → OrderService S
  new repo = record { repo = repo; cache = none; cache_ttl = default_cache_ttl }

  unfoldable pub set_cache : OrderService S → Option (OrderCache S) → ℤ → OrderService S
  set_cache s cache ttl = record s {
    cache = cache;
    cache_ttl = if lebℤ ttl (pos 0) then default_cache_ttl else ttl;
  }

  pub with_repo :
      {A : Type 0} → Option (Repository S) → (Repository S → Action S Error A) → Action S Error A
  with_repo none f = raise repository_not_configured
  with_repo (some repo) f = f repo

  pub with_repo-some :
      {A : Type 0} (o : Option (Repository S)) (f : Repository S → Action S Error A)
      {repo : Repository S}
      → o ≡ some repo
      → with_repo o f ≡ f repo
  unfolding with_repo
  with_repo-some o f h = rw h

  unfoldable pub health : OrderService S → Action S Error (Unit {0})
  unfolding with_repo
  health s = with_repo s.repo λ repo. repo.ping

  unfoldable pub list_orders : OrderService S → ℤ → Action S Error (List Order)
  unfolding with_repo
  list_orders s limit = with_repo s.repo λ repo. repo.list_orders (normalize_limit limit)

  unfoldable pub cache_order : OrderService S → Order → Action S Error (Unit {0})
  cache_order s order st = elim s.cache [
    | none ↦ (ok tt, st)
    | some cache ↦ ignoring (cache.set_order order s.cache_ttl) st
  ]

  -- A read error counts as a miss.
  found_or_miss : Result Error (Option Order) × S → Option Order × S
  found_or_miss (ok found, st) = (found, st)
  found_or_miss (err e, st) = (none, st)

  pub cached_order : Option (OrderCache S) → Text → S → Option Order × S
  unfolding found_or_miss
  cached_order none id st = (none, st)
  cached_order (some cache) id st = found_or_miss (cache.get_order_by_id id st)

  -- An order from the database is cached.
  pub and_cached : OrderService S → Action S Error Order → Action S Error Order
  and_cached s read = do order ← read; cache_order s order; pure order

  pub cached_or : OrderService S → Action S Error Order → Option Order × S → Result Error Order × S
  cached_or s read (some order, st) = (ok order, st)
  cached_or s read (none, st) = and_cached s read st

  pub get_with : OrderService S → Repository S → Text → Action S Error Order
  get_with s repo order_id = do
    id ← lift (checked_uuid (text "order_id") order_id)
    λ st. cached_or s (repo.get_order_by_id id) (cached_order s.cache id st)

  unfoldable pub get_order_by_id : OrderService S → Text → Action S Error Order
  unfolding with_repo get_with cached_or cached_order and_cached
  get_order_by_id s order_id = with_repo s.repo λ repo. get_with s repo order_id

  pub assign_with : OrderService S → Repository S → Text → AssignOrderInput → Action S Error Order
  assign_with s repo order_id input = do
    id ← lift (checked_uuid (text "order_id") order_id)
    normalized_input ← lift (normalize_assign_input input)
    and_cached s (repo.assign_order id normalized_input)

  unfoldable pub assign_order : OrderService S → Text → AssignOrderInput → Action S Error Order
  unfolding with_repo assign_with and_cached
  assign_order s order_id input = with_repo s.repo λ repo. assign_with s repo order_id input

  -- The order is cached and returned, with the mark that tells whether it is new.
  pub answered : OrderService S → Bool → Order → Action S Error (Order × Bool)
  answered s created order = do cache_order s order; pure (order, created)

  -- The lookup behind a creation that met the key.
  pub found_again : OrderService S → Repository S → Text → Action S Error (Order × Bool)
  found_again s repo key = do
    existing ← repo.get_order_by_idempotency_key key
    answered s false existing

  pub after_creation :
      OrderService S
      → Repository S
      → Text
      → Result Error Order × S
      → Result Error (Order × Bool) × S
  after_creation s repo key (ok created_order, st) = answered s true created_order st
  after_creation s repo key (err e, st) =
      if is_duplicate_idempotency e then found_again s repo key st else (err e, st)

  pub after_lookup :
      OrderService S
      → Repository S
      → CreateOrderInput
      → Text
      → Result Error Order × S
      → Result Error (Order × Bool) × S
  after_lookup s repo input key (ok existing, st) = answered s false existing st
  after_lookup s repo input key (err e, st) =
      if is_order_not_found e
      then after_creation s repo key (repo.create_order input key st)
      else (err e, st)

  pub create_with :
      OrderService S → Repository S → CreateOrderInput → Text → Action S Error (Order × Bool)
  create_with s repo input idempotency_key = do
    key ← lift (checked_key idempotency_key)
    normalized_input ← lift (normalize_create_input input)
    λ st. after_lookup s repo normalized_input key (repo.get_order_by_idempotency_key key st)

  unfoldable pub create_order :
      OrderService S → CreateOrderInput → Text → Action S Error (Order × Bool)
  unfolding with_repo create_with after_lookup after_creation found_again answered
  create_order s input idempotency_key =
      with_repo s.repo λ repo. create_with s repo input idempotency_key
