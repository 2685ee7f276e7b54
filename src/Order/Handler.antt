-- ===== src/Order/Handler.antt =====
-- services/order-service/internal/handler/handler.go
-- A request carries what net/http and encoding/json make of it: the path value, the query
-- parameter, the header, and the two answers of the JSON decoder to each of the two bodies.
-- Deadlines are not modelled.
pub mod Replies
use trackflow.Prelude.{
  ℕ, ℤ, pos, lebℤ, Bool, true, false, not, List, ◌++◌, Option, none, some, Result, ok, err,
  if◌then◌else◌,
}
use trackflow.Text.{Text, text, text_eq, trim_space, is_empty, trim_prefix}
use trackflow.Text.Number.{atoi}
use trackflow.Tracking.Handler.{Body, decode_body}
use trackflow.Order.Error.{
  Error, message, is_invalid_input, is_order_not_found, is_courier_not_found,
  is_order_already_assigned, is_assignment_not_allowed,
}
use trackflow.Order.Model.{Order, CreateOrderInput, AssignOrderInput}
use trackflow.Order.Service.{
  OrderService, health, list_orders, get_order_by_id, create_order, assign_order,
}

pub record Request : Type 0 where
  pub method : Text
  pub path_id : Text
  pub limit : Text
  pub idempotency_key : Text
  pub create_body : Body CreateOrderInput
  pub assign_body : Body AssignOrderInput

pub data Payload : Type 0 where
  plain : Text → Payload
  error_response : Text → Payload
  list_orders_response : List Order → Payload
  order_response : Order → Payload
  create_order_response : (order_id status : Text) → Payload
  assign_order_response : (order_id status : Text) → Payload

pub record Response : Type 0 where
  pub status : ℕ
  pub payload : Payload

abbrev pub write_error : ℕ → Text → Response
write_error status what = record { status = status; payload = error_response what }

unfoldable pub parse_limit : Text → Result Text ℤ
unfolding atoi
parse_limit raw = if is_empty raw then ok (pos 0) else elim (atoi raw) [
  | none ↦ err (text "limit must be an integer")
  | some limit ↦
      if lebℤ limit (pos 0) then err (text "limit must be greater than zero") else ok limit
]

unfoldable pub extract_validation_message : Error → Text
unfolding message trim_prefix
extract_validation_message e = trim_prefix (message e) (text "invalid input: ")

-- The answers to an error of the service.
unfoldable pub create_failure : Error → Response
unfolding extract_validation_message
create_failure e =
    if is_invalid_input e
    then write_error 400 (extract_validation_message e)
    else write_error 500 (text "failed to create order")

unfoldable pub get_failure : Error → Response
unfolding extract_validation_message
get_failure e =
    if is_invalid_input e
    then write_error 400 (extract_validation_message e)
    else if is_order_not_found e
    then write_error 404 (text "order not found")
    else write_error 500 (text "failed to get order")

unfoldable pub assign_failure : Error → Response
unfolding extract_validation_message
assign_failure e =
    if is_invalid_input e
    then write_error 400 (extract_validation_message e)
    else if is_order_not_found e
    then write_error 404 (text "order not found")
    else if is_courier_not_found e
    then write_error 404 (text "courier not found")
    else if is_order_already_assigned e
    then write_error 409 (text "order already assigned")
    else if is_assignment_not_allowed e
    then write_error 409 (text "assignment is not allowed for current order status")
    else write_error 500 (text "failed to assign order")

-- The answers to an order.
abbrev pub created_reply : Order × Bool → Response
created_reply (order, created) = record {
  status = if created then 201 else 200;
  payload = create_order_response order.id order.status;
}

abbrev assigned_reply : Order → Response
assigned_reply order = record {
  status = 200;
  payload = assign_order_response order.id order.status;
}

module _ {S : Type 0} where
  answer : {A : Type 0} → (A → Response) → (Error → Response) → Result Error A × S → Response × S
  answer success failure (ok a, s) = (success a, s)
  answer success failure (err e, s) = (failure e, s)

  -- The method, and a service that is not nil.
  guarded :
      Text → Option (OrderService S) → Request → S → (OrderService S → Response × S) → Response × S
  guarded method svc r s f =
      if not (text_eq r.method method)
      then (write_error 405 (text "method not allowed"), s)
      else elim svc [ none ↦ (write_error 503 (text "service unavailable"), s) | some svc ↦ f svc ]

  unfoldable pub handle_health : Option (OrderService S) → Request → S → Response × S
  unfolding answer guarded
  handle_health svc r s = guarded (text "GET") svc r s λ svc.
      answer (λ _. record { status = 200; payload = plain (text "ok") })
        (λ e. write_error 503 (text "database unavailable")) (health svc s)

  unfoldable pub handle_list_orders : Option (OrderService S) → Request → S → Response × S
  unfolding answer parse_limit
  handle_list_orders none r s = (write_error 503 (text "service unavailable"), s)
  handle_list_orders (some svc) r s = elim (parse_limit r.limit) [
    | err what ↦ (write_error 400 what, s)
    | ok limit ↦
        answer (λ orders. record { status = 200; payload = list_orders_response orders })
          (λ e. write_error 500 (text "failed to list orders")) (list_orders svc limit s)
  ]

  create_decoded : OrderService S → Text → Option CreateOrderInput → S → Response × S
  create_decoded svc idempotency_key none s = (write_error 400 (text "invalid json payload"), s)
  create_decoded svc idempotency_key (some payload) s =
      answer created_reply create_failure (create_order svc payload idempotency_key s)

  create_keyed : OrderService S → Request → S → Response × S
  create_keyed svc r s =
      let idempotency_key = trim_space r.idempotency_key in
      if is_empty idempotency_key
      then (write_error 400 (text "Idempotency-Key header is required"), s)
      else create_decoded svc idempotency_key (decode_body r.create_body) s

  unfoldable pub handle_create_order : Option (OrderService S) → Request → S → Response × S
  unfolding answer guarded create_keyed create_decoded decode_body create_failure
  handle_create_order svc r s = guarded (text "POST") svc r s λ svc. create_keyed svc r s

  unfoldable pub handle_orders : Option (OrderService S) → Request → S → Response × S
  unfolding handle_list_orders handle_create_order
  handle_orders svc r s =
      if text_eq r.method (text "GET")
      then handle_list_orders svc r s
      else if text_eq r.method (text "POST")
      then handle_create_order svc r s
      else (write_error 405 (text "method not allowed"), s)

  unfoldable pub handle_get_order_by_id : Option (OrderService S) → Request → S → Response × S
  unfolding answer guarded get_failure
  handle_get_order_by_id svc r s = guarded (text "GET") svc r s λ svc.
      answer (λ order. record { status = 200; payload = order_response order }) get_failure
        (get_order_by_id svc (trim_space r.path_id) s)

  assign_decoded : OrderService S → Text → Option AssignOrderInput → S → Response × S
  assign_decoded svc order_id none s = (write_error 400 (text "invalid json payload"), s)
  assign_decoded svc order_id (some payload) s =
      answer assigned_reply assign_failure (assign_order svc order_id payload s)

  unfoldable pub handle_assign_order : Option (OrderService S) → Request → S → Response × S
  unfolding answer guarded assign_decoded decode_body assign_failure
  handle_assign_order svc r s =
      guarded (text "POST") svc r s
        λ svc. assign_decoded svc (trim_space r.path_id) (decode_body r.assign_body) s
