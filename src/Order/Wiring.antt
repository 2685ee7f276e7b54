-- ===== src/Order/Wiring.antt =====
-- services/order-service/cmd/server/main.go: how the service is put together. The state has two
-- parts, the session with PostgreSQL and that of Redis.
pub mod Outcome
pub mod Endpoint
use trackflow.Prelude.{ℤ, pos, Option, none, some, Result, if◌then◌else◌}
use trackflow.Prelude.Action.{Action, on_first}
use trackflow.Text.{Text, text, trim_space, is_empty}
use trackflow.Environment.{Environment, get_env, get_duration_env}
use trackflow.Database.{Postgres, Session}
use trackflow.Tracking.Cache.{RedisClient, client_on}
use trackflow.Order.Cache.{OrderJson, order_cache}
use trackflow.Order.Repository.{OrderRepository, repository}
use trackflow.Order.Service.{Repository, OrderService, new, set_cache}

abbrev pub default_redis_addr : Text
default_redis_addr = text "redis:6379"

-- A minute, in nanoseconds.
abbrev pub default_order_cache_ttl : ℤ
default_order_cache_ttl = pos 60_000_000_000

pub repository_on : {T R : Type 0} → Repository T → Repository (T × R)
repository_on repo = record {
  ping = on_first repo.ping;
  list_orders = λ limit. on_first (repo.list_orders limit);
  get_order_by_id = λ id. on_first (repo.get_order_by_id id);
  assign_order = λ id input. on_first (repo.assign_order id input);
  create_order = λ input key. on_first (repo.create_order input key);
  get_order_by_idempotency_key = λ key. on_first (repo.get_order_by_idempotency_key key);
}

-- The client of an address, or none where the ping fails.
module _ {R : Type 0} (parse_duration : Text → Option ℤ) (dial : Text → Option (RedisClient R))
    (getenv : Environment) where
  -- The client of the configured address, which may be blank.
  unfoldable pub redis : Option (RedisClient R)
  unfolding get_env
  redis =
      let addr = trim_space (get_env getenv (text "REDIS_ADDR") default_redis_addr) in
      if is_empty addr then none else dial addr

  unfoldable pub cache_ttl : ℤ
  unfolding get_duration_env
  cache_ttl =
      get_duration_env parse_duration getenv (text "ORDER_CACHE_TTL") default_order_cache_ttl

-- The service without Redis, and with it where it answers at the start.
unfoldable pub wire :
    {R : Type 0}
    → OrderJson
    → Postgres
    → OrderRepository
    → Option (RedisClient R)
    → ℤ
    → OrderService (Session × R)
unfolding repository_on new set_cache
wire json pg r none ttl = new (some (repository_on (repository pg r)))
wire json pg r (some client) ttl =
    set_cache (new (some (repository_on (repository pg r))))
      (some (order_cache json (some (client_on client)))) ttl

module _ {R : Type 0} (parse_duration : Text → Option ℤ)
    (dial : Text → Option (RedisClient R)) where
  unfoldable pub start :
      Environment → OrderJson → Postgres → OrderRepository → OrderService (Session × R)
  unfolding wire redis cache_ttl
  start getenv json pg r =
      wire json pg r (redis parse_duration dial getenv) (cache_ttl parse_duration dial getenv)
