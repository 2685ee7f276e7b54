-- ===== src/Tracking/Handler/Statuses.antt =====
-- How the handlers of services/tracking-service/internal/handler/handler.go answer.
use trackflow.Prelude.{
  ◌≡◌, Option-cases, ◌≤◌, Result, some, err, arith, inl, Bool-cases, ok, inr, refl,
}
use trackflow.Text.{text_eq, is_empty, text}
use trackflow.Tracking.Error.{Error}
use trackflow.Tracking.Model.{StatusHistoryItem, UpdateStatusInput}
use trackflow.Tracking.Service.{TrackingService, update_order_status}
use trackflow.Tracking.Handler.{
  Request, Response, update_status_response, update_failure, handle_update_order_status, answer,
  write_status, decode_body, extract_order_id,
}

-- The answer for an item that was stored.
abbrev pub updated : StatusHistoryItem → Response
updated item = record {
  status = 200;
  payload = update_status_response item.order_id item.status item.source item.created_at;
}

pub update_failure_status : (e : Error) → 400 ≤ (update_failure e).status
unfolding update_failure
update_failure_status e = ground arith

module _ {S : Type 0} (svc : TrackingService S) (req : Request) (st : S) where
  -- The ways in which a status request is answered.
  pub data Reply : Response × S → Type 0 where
    refused : (response : Response) → 400 ≤ response.status → Reply (response, st)
    failed :
        (input : UpdateStatusInput) (e : Error) (st' : S)
        → decode_body req.body ≡ some input
        → update_order_status svc (extract_order_id req) input st ≡ (err e, st')
        → Reply (update_failure e, st')
    stored :
        (input : UpdateStatusInput) (item : StatusHistoryItem) (st' : S)
        → decode_body req.body ≡ some input
        → update_order_status svc (extract_order_id req) input st ≡ (ok item, st')
        → Reply (updated item, st')

  answer-Reply :
      (input : UpdateStatusInput) (r : Result Error StatusHistoryItem × S)
      → decode_body req.body ≡ some input
      → update_order_status svc (extract_order_id req) input st ≡ r
      → Reply (answer updated update_failure r)
  unfolding answer
  answer-Reply input (ok item, st') read h = stored input item st' read h
  answer-Reply input (err e, st') read h = failed input e st' read h

  write_status-Reply : Reply (write_status svc req st)
  unfolding write_status
  write_status-Reply = elim (Option-cases (decode_body req.body)) [
    | inl bad ↦ rw (bad, write_status) (refused _ (omega arith))
    | inr (payload, decoded) ↦ elim (Bool-cases (is_empty (extract_order_id req))) [
      | inl empty ↦ rw (decoded, write_status) (rw empty (refused _ (omega arith)))
      | inr given ↦ rw (decoded, write_status) (rw given (answer-Reply payload _ decoded refl))
    ]
  ]

  -- A status request is answered in one of three ways: with a status of 400 or more and nothing
  -- done, with the failure that the service's error stands for, or with 200 and the stored item.
  pub handle_update_order_status-Reply : Reply (handle_update_order_status (some svc) req st)
  unfolding handle_update_order_status
  handle_update_order_status-Reply = elim (Bool-cases (text_eq req.method (text "POST"))) [
    | inl post ↦ rw post (write_status-Reply)
    | inr other ↦ rw other (refused _ (omega arith))
  ]
