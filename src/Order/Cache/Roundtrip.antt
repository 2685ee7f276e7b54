-- ===== src/Order/Cache/Roundtrip.antt =====
-- The key that order_cache.go of order-service and order_cache_invalidator.go of tracking-service
-- share.
use trackflow.Prelude.{ℤ, ◌≡◌, none, some, ok, err, arith, false}
use trackflow.Prelude.Action.{wrapping-ok}
use trackflow.Text.{Text, is_empty}
use trackflow.Tracking.Cache as TrackingCache
use trackflow.Tracking.Cache.{RedisClient, RedisError, nil, with_client, delete_order}
use trackflow.Order.Model.{Order}
use trackflow.Order.Cache.{
  OrderJson, get_order_by_id, set_order, cache_key, decode_order, order_found,
}

-- What the services rely on of Redis: a key that was just written is read back, and one that was
-- just deleted is not there.
pub record KeepsValues {S : Type 0} (c : RedisClient S) : Type 0 where
  pub written :
      (key value : Text) (ttl : ℤ) (st : S)
      → (c.write key value ttl st).0 ≡ ok tt
      → (c.read key (c.write key value ttl st).1).0 ≡ ok value
  pub deleted :
      (key : Text) (st : S)
      → (c.delete key st).0 ≡ ok tt
      → (c.read key (c.delete key st).1).0 ≡ err nil

module _ {S : Type 0} (json : OrderJson) (c : RedisClient S) where
  get_order_by_id-found :
      (order : Order) (st : S)
      → json.unmarshal (json.marshal order) ≡ some order
      → is_empty order.id ≡ false
      → (c.read (cache_key order.id) st).0 ≡ ok (json.marshal order)
      → (get_order_by_id json (some c) order.id st).0 ≡ ok (some order)
  unfolding get_order_by_id with_client decode_order order_found
  get_order_by_id-found order st read_back given there =
      rw given (ground (arith, read_back, given, there))

  get_order_by_id-missed :
      (id : Text) (st : S)
      → (c.read (cache_key id) st).0 ≡ err nil
      → (get_order_by_id json (some c) id st).0 ≡ ok none
  unfolding get_order_by_id with_client decode_order
  get_order_by_id-missed id st there = ground arith

module _ {S : Type 0} (json : OrderJson) (c : RedisClient S) (laws : KeepsValues c) (order : Order)
    (ttl : ℤ) (st st' : S) where
  -- An order with an id that order-service stored is the one that it finds next. Once
  -- tracking-service, in any state, has deleted the order of that id, order-service finds none.
  pub set_order-get_order_by_id :
      json.unmarshal (json.marshal order) ≡ some order
      → is_empty order.id ≡ false
      → (set_order json (some c) order ttl st).0 ≡ ok tt
      → (delete_order (some c) order.id st').0 ≡ ok tt
      → ((get_order_by_id json (some c) order.id (set_order json (some c) order ttl st).1).0
          ≡ ok (some order))
        × ((get_order_by_id json (some c) order.id (delete_order (some c) order.id st').1).0
            ≡ ok none)
  unfolding set_order delete_order with_client cache_key TrackingCache.order_cache_key
  set_order-get_order_by_id read_back given stored removed = (
    get_order_by_id-found json c order _ read_back given (
        rw given (
          laws.written (cache_key order.id) (json.marshal order) ttl st (
            wrapping-ok _ (c.write (cache_key order.id) (json.marshal order) ttl) st
              (rw given at stored)))),
    get_order_by_id-missed json c order.id _ (
        rw given (
          laws.deleted (cache_key order.id) st'
            (wrapping-ok _ (c.delete (cache_key order.id)) st' (rw given at removed)))),
  )
