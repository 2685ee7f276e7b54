-- ===== src/Tracking/Handler.antt =====
-- services/tracking-service/internal/handler/handler.go
-- A request carries what net/http and encoding/json make of it: the path values, the query
-- parameter, and the two answers of the JSON decoder. Deadlines are not modelled.
pub mod Statuses
use trackflow.Prelude.{
  ℕ, ℤ, pos, lebℤ, Bool, true, false, not, List, ◌++◌, Option, none, some, Result, ok, err,
  if◌then◌else◌,
}
use trackflow.Prelude.Action.{Action, ◌>>=◌}
use trackflow.Text.{Text, text, text_eq, trim_space, is_empty, trim_prefix, has_prefix, has_part}
use trackflow.Text.Number.{atoi}
use trackflow.Tracking.Error.{
  Error, invalid_input, order_not_found, transition_not_allowed, message, is_invalid_input,
  is_order_not_found, is_transition_not_allowed,
}
use trackflow.Tracking.Model.{StatusHistoryItem, UpdateStatusInput, Time}
use trackflow.Tracking.Service.{TrackingService, health, get_order_timeline, update_order_status}

-- An answer of json.Decoder.Decode: a value, io.EOF, or another error.
pub data Decoded (A : Type 0) : Type 0 where
  value : A → Decoded A
  eof : Decoded A
  malformed : Decoded A

-- `next` answers the decoding into `struct{}` that follows the first.
pub record Body (A : Type 0) : Type 0 where
  pub first : Decoded A
  pub next : Decoded (Unit {0})

pub record Request : Type 0 where
  pub method : Text
  pub path_order_id : Text
  pub path_id : Text
  pub limit : Text
  pub body : Body UpdateStatusInput

pub data Payload : Type 0 where
  plain : Text → Payload
  error_response : Text → Payload
  timeline_response : List StatusHistoryItem → Payload
  update_status_response : (order_id status source : Text) → Time → Payload

pub record Response : Type 0 where
  pub status : ℕ
  pub payload : Payload

abbrev write_error : ℕ → Text → Response
write_error status what = record { status = status; payload = error_response what }

unfoldable pub parse_limit : Text → Result Text ℤ
unfolding atoi
parse_limit raw = if is_empty raw then ok (pos 0) else elim (atoi raw) [
  | none ↦ err (text "limit must be an integer")
  | some limit ↦
      if lebℤ limit (pos 0) then err (text "limit must be greater than zero") else ok limit
]

-- `none` for nil.
ensure_single_json_value : Decoded (Unit {0}) → Option Text
ensure_single_json_value eof = none
ensure_single_json_value malformed = some (text "invalid")
ensure_single_json_value (value v) = some (text "multiple json values")

-- Both decoding steps of the handlers.
unfoldable pub decode_body : {A : Type 0} → Body A → Option A
unfolding ensure_single_json_value
decode_body body = elim body.first [
  | value v ↦ elim (ensure_single_json_value body.next) [ none ↦ some v | some what ↦ none ]
  | eof ↦ none
  | malformed ↦ none
]

pub extract_order_id : Request → Text
extract_order_id r =
    let order_id = trim_space r.path_order_id in
    if is_empty order_id then trim_space r.path_id else order_id

unfoldable pub extract_validation_message : Error → Text
unfolding message trim_prefix
extract_validation_message e = trim_prefix (message e) (text "invalid input: ")

is_invalid_uuid_error : Error → Bool
is_invalid_uuid_error e = has_part (message e) (text "invalid input syntax for type uuid")

unfoldable pub timeline_failure : Error → Response
unfolding extract_validation_message is_invalid_uuid_error
timeline_failure e =
    if is_invalid_input e
    then write_error 400 (extract_validation_message e)
    else if is_order_not_found e
    then write_error 404 (text "order not found")
    else if is_invalid_uuid_error e
    then write_error 400 (text "order_id must be a valid UUID")
    else write_error 500 (text "failed to get order timeline")

unfoldable pub update_failure : Error → Response
unfolding extract_validation_message
update_failure e =
    if is_invalid_input e
    then write_error 400 (extract_validation_message e)
    else if is_order_not_found e
    then write_error 404 (text "order not found")
    else if is_transition_not_allowed e
    then write_error 409 (text "status transition is not allowed")
    else write_error 500 (text "failed to update order status")

module _ {S : Type 0} where
  answer : {A : Type 0} → (A → Response) → (Error → Response) → Result Error A × S → Response × S
  answer success failure (ok a, s) = (success a, s)
  answer success failure (err e, s) = (failure e, s)

  -- `h.svc` is `none` for nil.
  with_service : Option (TrackingService S) → S → (TrackingService S → Response × S) → Response × S
  with_service none s f = (write_error 503 (text "service unavailable"), s)
  with_service (some svc) s f = f svc

  unfoldable pub handle_health : Option (TrackingService S) → Request → S → Response × S
  unfolding answer with_service
  handle_health svc r s =
      if not (text_eq r.method (text "GET"))
      then (write_error 405 (text "method not allowed"), s)
      else with_service svc s λ svc.
        answer (λ _. record { status = 200; payload = plain (text "ok") })
          (λ e. write_error 503 (text "database unavailable")) (health svc s)

  read_timeline : TrackingService S → Request → S → Response × S
  read_timeline svc r s =
      let order_id = extract_order_id r in
      if is_empty order_id
      then (write_error 400 (text "order_id is required"), s)
      else elim (parse_limit r.limit) [
        | err what ↦ (write_error 400 what, s)
        | ok limit ↦
            answer (λ items. record { status = 200; payload = timeline_response items })
              timeline_failure (get_order_timeline svc order_id limit s)
      ]

  unfoldable pub handle_get_order_timeline : Option (TrackingService S) → Request → S → Response × S
  unfolding answer with_service read_timeline extract_order_id parse_limit timeline_failure
  handle_get_order_timeline svc r s =
      if not (text_eq r.method (text "GET"))
      then (write_error 405 (text "method not allowed"), s)
      else with_service svc s λ svc. read_timeline svc r s

  write_status : TrackingService S → Request → S → Response × S
  write_status svc r s = elim (decode_body r.body) [
    | none ↦ (write_error 400 (text "invalid json payload"), s)
    | some payload ↦
        let order_id = extract_order_id r in
        if is_empty order_id
        then (write_error 400 (text "order_id is required"), s)
        else answer
            (λ item. record {
              status = 200;
              payload =
                  update_status_response item.order_id item.status item.source item.created_at;
            })
            update_failure (update_order_status svc order_id payload s)
  ]

  unfoldable pub handle_update_order_status :
      Option (TrackingService S) → Request → S → Response × S
  unfolding answer with_service write_status decode_body extract_order_id update_failure
  handle_update_order_status svc r s =
      if not (text_eq r.method (text "POST"))
      then (write_error 405 (text "method not allowed"), s)
      else with_service svc s λ svc. write_status svc r s
