-- ===== src/Order/Cache.antt =====
-- services/order-service/internal/cache/redis/order_cache.go
-- The Redis client is a parameter, as is the JSON text of an order.
pub mod Roundtrip
use trackflow.Prelude.{ℤ, ◌++◌, Option, none, some, Result, ok, err, if◌then◌else◌}
use trackflow.Prelude.Action.{Action, pure, wrapping}
use trackflow.Text.{Text, text, is_empty}
use trackflow.Tracking.Cache.{RedisClient, RedisError, nil, broken, with_client}
use trackflow.Order.Error.{Error, external}
use trackflow.Order.Model.{Order}
use trackflow.Order.Service.{OrderCache}

-- json.Marshal and json.Unmarshal of an order.
pub record OrderJson : Type 0 where
  pub marshal : Order → Text
  pub unmarshal : Text → Option Order

abbrev pub order_key_prefix : Text
order_key_prefix = text "order:"

unfoldable pub cache_key : Text → Text
cache_key order_id = order_key_prefix ++ order_id

client_error : RedisError → Error
client_error nil = external (text "redis: nil")
client_error (broken what) = external what

-- An order without an id is none.
order_found : Order → Option Order
order_found order = if is_empty order.id then none else some order

module _ {S : Type 0} (json : OrderJson) (client : Option (RedisClient S)) where
  -- The answer to Get.
  decode_order : Result RedisError Text × S → Result Error (Option Order) × S
  unfolding order_found
  decode_order (err nil, s) = (ok none, s)
  decode_order (err (broken what), s) = (err (external what), s)
  decode_order (ok payload, s) = elim (json.unmarshal payload) [
    | none ↦ (err (external (text "decode order cache value: invalid JSON")), s)
    | some order ↦ (ok (order_found order), s)
  ]

  unfoldable pub get_order_by_id : Text → Action S Error (Option Order)
  unfolding with_client decode_order cache_key
  get_order_by_id order_id =
      with_client client order_id none λ c s. decode_order (c.read (cache_key order_id) s)

  unfoldable pub set_order : Order → ℤ → Action S Error (Unit {0})
  unfolding with_client client_error cache_key
  set_order order ttl =
      with_client client order.id tt
        λ c. wrapping client_error (c.write (cache_key order.id) (json.marshal order) ttl)

  unfoldable pub order_cache : OrderCache S
  unfolding get_order_by_id set_order
  order_cache = record { get_order_by_id = get_order_by_id; set_order = set_order }
