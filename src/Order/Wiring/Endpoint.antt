-- ===== src/Order/Wiring/Endpoint.antt =====
-- POST /orders through the whole order service: handler, service, repository and tables.
use trackflow.Prelude.{◌≡◌, ◌≤◌, ℤ, Option, some, err, ok, refl, true, false}
use trackflow.Text.{Text, text, trim_space}
use trackflow.Database.{Postgres, Database, Session}
use trackflow.Order.Error.{Error, external}
use trackflow.Order.Model.{Order, CreateOrderInput}
use trackflow.Order.Validation.{normalize_create_input}
use trackflow.Order.Service.{OrderService, checked_key, create_order}
use trackflow.Tracking.Cache.{RedisClient}
use trackflow.Tracking.Handler.{decode_body}
use trackflow.Order.Cache.{OrderJson}
use trackflow.Order.Repository.{OrderRepository}
use trackflow.Order.Repository.Creation.{IsCreation, IsUnseen}
use trackflow.Order.Handler.{
  Request, Response, create_order_response, create_failure, created_reply, handle_create_order,
  write_error,
}
use trackflow.Order.Handler.Replies.{CreateReply, handle_create_order-CreateReply}
use trackflow.Order.Wiring.{wire}
use trackflow.Order.Wiring.Outcome.{
  IsKnown, Outcome, made, met, failed, unseen, create_order-Outcome,
}

-- An answer to a creation, and the tables behind it.
pub data Answered (pg : Postgres) (req : Request) (before : Database)
    : Response → Database → Type 0 where
  new_order :
      (raw input : CreateOrderInput) (key : Text) (order : Order) (after : Database)
      → decode_body req.create_body ≡ some raw
      → normalize_create_input raw ≡ ok input
      → checked_key (trim_space req.idempotency_key) ≡ ok key
      → IsCreation pg input key before order after
      → Answered pg req before
          (record { status = 201; payload = create_order_response order.id order.status })
          after
  known_order :
      (key : Text) (order : Order) (after : Database)
      → checked_key (trim_space req.idempotency_key) ≡ ok key
      → IsKnown key before order
      → after ≡ before
      → Answered pg req before
          (record { status = 200; payload = create_order_response order.id order.status })
          after
  unseen_order :
      (raw input : CreateOrderInput) (key : Text) (looked : Session) (e : Error) (after : Database)
      → decode_body req.create_body ≡ some raw
      → normalize_create_input raw ≡ ok input
      → checked_key (trim_space req.idempotency_key) ≡ ok key
      → looked.database ≡ before
      → IsUnseen pg input key looked e after
      → Answered pg req before (write_error 500 (text "failed to create order")) after
  no_order :
      (response : Response) (after : Database)
      → 400 ≤ response.status
      → after ≡ before
      → Answered pg req before response after

module _ {R : Type 0} (json : OrderJson) (pg : Postgres) (r : OrderRepository)
    (redis : Option (RedisClient R)) (ttl : ℤ) (req : Request) (st : Session × R) where
  abbrev service : OrderService (Session × R)
  service = wire json pg r redis ttl

  outcome :
      (raw : CreateOrderInput)
      → Outcome pg raw
          (trim_space req.idempotency_key)
          st.0.database
          (create_order service raw (trim_space req.idempotency_key) st)
  outcome raw = create_order-Outcome json pg r redis ttl raw (trim_space req.idempotency_key) st

  new-Answered :
      {raw : CreateOrderInput} {order : Order} {st' : Session × R}
      → decode_body req.create_body ≡ some raw
      → Outcome pg raw (trim_space req.idempotency_key) st.0.database (ok (order, true), st')
      → Answered pg req st.0.database (created_reply (order, true)) st'.0.database
  new-Answered {raw} read (made input key order s x c n creation) =
      new_order raw input key order s.database read n c creation

  known-Answered :
      {raw : CreateOrderInput} {order : Order} {st' : Session × R}
      → Outcome pg raw (trim_space req.idempotency_key) st.0.database (ok (order, false), st')
      → Answered pg req st.0.database (created_reply (order, false)) st'.0.database
  known-Answered (met key order s x c known same) = known_order key order s.database c known same

  unseen_failure :
      (e : Error) (what : Text)
      → e ≡ external what
      → create_failure e ≡ write_error 500 (text "failed to create order")
  unfolding create_failure
  unseen_failure e what reported = rw reported refl

  failed-Answered :
      {raw : CreateOrderInput} {e : Error} {st' : Session × R}
      → decode_body req.create_body ≡ some raw
      → 400 ≤ (create_failure e).status
      → Outcome pg raw (trim_space req.idempotency_key) st.0.database (err e, st')
      → Answered pg req st.0.database (create_failure e) st'.0.database
  failed-Answered read bad (failed e s x same) = no_order (create_failure e) s.database bad same
  failed-Answered {raw} read bad (unseen input key looked e s x c n before u) =
      rw (unseen_failure e u.what u.reported)
        (unseen_order raw input key looked e s.database read n c before u)

  Reply-Answered :
      {o : Response × (Session × R)}
      → CreateReply service req st o
      → Answered pg req st.0.database o.0 o.1.0.database
  Reply-Answered (CreateReply.refused response bad) = no_order response st.0.database bad refl
  Reply-Answered (CreateReply.failed raw e st' read h bad) =
      failed-Answered read bad (rw h at (outcome raw))
  Reply-Answered (CreateReply.created raw order st' read h) =
      new-Answered read (rw h at (outcome raw))
  Reply-Answered (CreateReply.known raw order st' read h) = known-Answered (rw h at (outcome raw))

  pub handle_create_order-Answered :
      let (response, (after, rest)) = handle_create_order (some service) req st in
      Answered pg req st.0.database response after.database
  handle_create_order-Answered = Reply-Answered (handle_create_order-CreateReply service req st)
