-- ===== src/Tracking/Wiring.antt =====
-- services/tracking-service/cmd/server/main.go: how the service is put together. The state has two
-- parts, the session with PostgreSQL and everything else (Redis, the notification service).
pub mod Endpoint
use trackflow.Prelude.{ℤ, pos, if◌then◌else◌, Option, none, some, Result}
use trackflow.Prelude.Action.{Action, on_first, on_second}
use trackflow.Text.{Text, text, trim_space, is_empty}
use trackflow.Environment.{Environment, get_env, get_duration_env}
use trackflow.Database.{Postgres, Session}
use trackflow.Tracking.Cache.{
  client_on, RedisClient, TimelineJson, timeline_cache, order_cache_invalidator,
}
use trackflow.Tracking.Repository.{TrackingRepository, repository}
use trackflow.Tracking.Service.{
  Repository, Notifier, TimelineCache, OrderCacheInvalidator, TrackingService, new, set_notifier,
  set_timeline_cache, set_order_cache_invalidator,
}

module _ {T R : Type 0} where
  pub repository_on : Repository T → Repository (T × R)
  repository_on repo = record {
    ping = on_first repo.ping;
    get_order_timeline = λ id limit. on_first (repo.get_order_timeline id limit);
    update_order_status = λ id status source comment metadata.
        on_first (repo.update_order_status id status source comment metadata);
  }

  notifier_on : Notifier R → Notifier (T × R)
  notifier_on notifier = record {
    notify_status_changed = λ item. on_second (notifier.notify_status_changed item);
  }

-- The service without Redis, and with it where Redis answers at the start.
module _ {R : Type 0} (pg : Postgres) (r : TrackingRepository) (notifier : Notifier R)
    (json : TimelineJson) (ttl : ℤ) where
  unfoldable pub wire : Option (RedisClient R) → TrackingService (Session × R)
  unfolding repository_on notifier_on set_order_cache_invalidator set_timeline_cache set_notifier
      new
  wire none =
      set_notifier (new (some (repository_on (repository pg r)))) (some (notifier_on notifier))
  wire (some client) =
      set_order_cache_invalidator
        (set_timeline_cache
          (set_notifier (new (some (repository_on (repository pg r))))
            (some (notifier_on notifier)))
          (some (timeline_cache json (some (client_on client)))) ttl)
        (some (order_cache_invalidator (some (client_on client))))

abbrev pub default_redis_addr : Text
default_redis_addr = text "redis:6379"

-- 15 seconds, in nanoseconds.
abbrev pub default_timeline_cache_ttl : ℤ
default_timeline_cache_ttl = pos 15_000_000_000

-- What main reads of the environment; `dial` gives none where the ping fails.
module _ {R : Type 0} (parse_duration : Text → Option ℤ) (dial : Text → Option (RedisClient R))
    (getenv : Environment) where
  unfoldable pub redis : Option (RedisClient R)
  unfolding get_env
  redis =
      let addr = trim_space (get_env getenv (text "REDIS_ADDR") default_redis_addr) in
      if is_empty addr then none else dial addr

  unfoldable pub start :
      Postgres → TrackingRepository → Notifier R → TimelineJson → TrackingService (Session × R)
  unfolding wire redis get_duration_env
  start pg r notifier json =
      wire pg r notifier json
        (get_duration_env parse_duration getenv (text "TRACKING_TIMELINE_CACHE_TTL")
          default_timeline_cache_ttl)
        redis
