-- ===== src/Order/Handler/Replies.antt =====
-- How the handlers of services/order-service/internal/handler/handler.go answer.
use trackflow.Prelude.{
  true, false, ◌≡◌, ◌≤◌, Result, some, none, err, arith, inl, Bool-cases, ok, inr, refl, Bool,
  Option,
}
use trackflow.Text.{text_eq, is_empty, text, trim_space}
use trackflow.Order.Error.{Error}
use trackflow.Order.Model.{Order, CreateOrderInput}
use trackflow.Order.Service.{OrderService, create_order}
use trackflow.Tracking.Handler.{decode_body}
use trackflow.Order.Handler.{
  Request, Response, create_order_response, create_failure, created_reply, handle_create_order,
  answer, guarded, create_keyed, create_decoded,
}

pub create_failure_status : (e : Error) → 400 ≤ (create_failure e).status
unfolding create_failure
create_failure_status e = ground arith

module _ {S : Type 0} (svc : OrderService S) (req : Request) (st : S) where
  -- The ways in which a creation is answered.
  pub data CreateReply : Response × S → Type 0 where
    refused : (response : Response) → 400 ≤ response.status → CreateReply (response, st)
    failed :
        (input : CreateOrderInput) (e : Error) (st' : S)
        → decode_body req.create_body ≡ some input
        → create_order svc input (trim_space req.idempotency_key) st ≡ (err e, st')
        → 400 ≤ (create_failure e).status
        → CreateReply (create_failure e, st')
    created :
        (input : CreateOrderInput) (order : Order) (st' : S)
        → decode_body req.create_body ≡ some input
        → create_order svc input (trim_space req.idempotency_key) st ≡ (ok (order, true), st')
        → CreateReply
            (record { status = 201; payload = create_order_response order.id order.status }, st')
    known :
        (input : CreateOrderInput) (order : Order) (st' : S)
        → decode_body req.create_body ≡ some input
        → create_order svc input (trim_space req.idempotency_key) st ≡ (ok (order, false), st')
        → CreateReply
            (record { status = 200; payload = create_order_response order.id order.status }, st')

  answer-CreateReply :
      (input : CreateOrderInput) (r : Result Error (Order × Bool) × S)
      → decode_body req.create_body ≡ some input
      → create_order svc input (trim_space req.idempotency_key) st ≡ r
      → CreateReply (answer created_reply create_failure r)
  unfolding answer
  answer-CreateReply input (ok (order, true), st') read h = created input order st' read h
  answer-CreateReply input (ok (order, false), st') read h = known input order st' read h
  answer-CreateReply input (err e, st') read h = failed input e st' read h (create_failure_status e)

  create_decoded-CreateReply :
      (payload : Option CreateOrderInput)
      → decode_body req.create_body ≡ payload
      → CreateReply (create_decoded svc (trim_space req.idempotency_key) payload st)
  unfolding create_decoded
  create_decoded-CreateReply none read = refused _ (omega arith)
  create_decoded-CreateReply (some payload) read = answer-CreateReply payload _ read refl

  create_keyed-CreateReply : CreateReply (create_keyed svc req st)
  unfolding create_keyed
  create_keyed-CreateReply = elim (Bool-cases (is_empty (trim_space req.idempotency_key))) [
    | inl missing ↦ rw missing (refused _ (omega arith))
    | inr given ↦ rw given (create_decoded-CreateReply (decode_body req.create_body) refl)
  ]

  -- A creation is answered in one of three ways: with a status of 400 or more and nothing done,
  -- with the status of 400 or more that the service's error stands for, or with the service's
  -- order, under 201 if the service created it and 200 if its key was known.
  pub handle_create_order-CreateReply : CreateReply (handle_create_order (some svc) req st)
  unfolding handle_create_order guarded
  handle_create_order-CreateReply = elim (Bool-cases (text_eq req.method (text "POST"))) [
    | inl post ↦ rw post create_keyed-CreateReply
    | inr other ↦ rw other (refused _ (omega arith))
  ]
