-- ===== src/Tracking/Cache.antt =====
-- services/tracking-service/internal/cache/redis: timeline_cache.go and order_cache_invalidator.go.
-- The Redis client is a parameter, as is the JSON text of a timeline.
use trackflow.Prelude.{ℤ, List, ◌++◌, Option, none, some, Result, ok, err, if◌then◌else◌}
use trackflow.Prelude.Action.{Action, on_second, pure, wrapping}
use trackflow.Text.{Text, text, is_empty}
use trackflow.Tracking.Error.{Error, external}
use trackflow.Tracking.Model.{StatusHistoryItem}
use trackflow.Tracking.Service.{TimelineCache, OrderCacheInvalidator}

-- goredis.Nil, or another error of the client.
pub data RedisError : Type 0 where
  nil : RedisError
  broken : Text → RedisError

-- Get, Set and Del of the client over the state `S`.
pub record RedisClient (S : Type 0) : Type 0 where
  pub read : Text → Action S RedisError Text
  pub write : Text → Text → ℤ → Action S RedisError (Unit {0})
  pub delete : Text → Action S RedisError (Unit {0})

-- A client on the second of two parts of a state.
abbrev pub client_on : {T R : Type 0} → RedisClient R → RedisClient (T × R)
client_on client = record {
  read = λ key. on_second (client.read key);
  write = λ key payload ttl. on_second (client.write key payload ttl);
  delete = λ key. on_second (client.delete key);
}

-- json.Marshal and json.Unmarshal of a timeline.
pub record TimelineJson : Type 0 where
  pub marshal : List StatusHistoryItem → Text
  pub unmarshal : Text → Option (List StatusHistoryItem)

abbrev pub timeline_key_prefix : Text
timeline_key_prefix = text "timeline:"

abbrev pub order_key_prefix : Text
order_key_prefix = text "order:"

unfoldable pub cache_key : Text → Text
cache_key order_id = timeline_key_prefix ++ order_id

unfoldable pub order_cache_key : Text → Text
order_cache_key order_id = order_key_prefix ++ order_id

client_error : RedisError → Error
client_error nil = external (text "redis: nil")
client_error (broken what) = external what

module _ {S : Type 0} (client : Option (RedisClient S)) where
  -- Nothing is done without a client or without an id.
  unfoldable pub with_client :
      {E A : Type 0} → Text → A → (RedisClient S → Action S E A) → Action S E A
  with_client order_id idle f = elim client [
    | none ↦ pure idle
    | some c ↦ if is_empty order_id then pure idle else f c
  ]

module _ {S : Type 0} (json : TimelineJson) (client : Option (RedisClient S)) where
  -- The answer to Get.
  decode_timeline : Result RedisError Text × S → Result Error (Option (List StatusHistoryItem)) × S
  decode_timeline (err nil, s) = (ok none, s)
  decode_timeline (err (broken what), s) = (err (external what), s)
  decode_timeline (ok payload, s) = elim (json.unmarshal payload) [
    | none ↦ (err (external (text "decode timeline cache value: invalid JSON")), s)
    | some items ↦ (ok (some items), s)
  ]

  unfoldable pub get_timeline : Text → Action S Error (Option (List StatusHistoryItem))
  unfolding with_client decode_timeline cache_key
  get_timeline order_id =
      with_client client order_id none λ c s. decode_timeline (c.read (cache_key order_id) s)

  unfoldable pub set_timeline : Text → List StatusHistoryItem → ℤ → Action S Error (Unit {0})
  unfolding with_client client_error cache_key
  set_timeline order_id items ttl =
      with_client client order_id tt
        λ c. wrapping client_error (c.write (cache_key order_id) (json.marshal items) ttl)

  unfoldable pub delete_timeline : Text → Action S Error (Unit {0})
  unfolding with_client client_error cache_key
  delete_timeline order_id =
      with_client client order_id tt λ c. wrapping client_error (c.delete (cache_key order_id))

  unfoldable pub timeline_cache : TimelineCache S
  unfolding get_timeline set_timeline delete_timeline
  timeline_cache = record {
    get_timeline = get_timeline;
    set_timeline = set_timeline;
    delete_timeline = delete_timeline;
  }

module _ {S : Type 0} (client : Option (RedisClient S)) where
  unfoldable pub delete_order : Text → Action S Error (Unit {0})
  unfolding with_client client_error order_cache_key
  delete_order order_id =
      with_client client order_id tt
        λ c. wrapping client_error (c.delete (order_cache_key order_id))

  unfoldable pub order_cache_invalidator : OrderCacheInvalidator S
  unfolding delete_order
  order_cache_invalidator = record { delete_order = delete_order }
