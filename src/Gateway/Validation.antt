-- ===== src/Gateway/Validation.antt =====
-- services/api-gateway/internal/gateway/validation.go. The DTOs have the fields of the inputs of
-- order-service and tracking-service, and those records stand for them. A body is its text, or none
-- where reading it fails, with the two answers of the JSON decoder.
pub mod Agreement
pub mod Refusals
use trackflow.Prelude.{
  ℕ, ℤ, pos, lebℤ, ltbℤ, ltb, leb, Bool, true, false, not, ◌||◌, ◌&&◌, ◌++◌, [], ◌∷◌, List, Option,
  none, some, Result, ok, err, fail_if, ◌>>=◌, ◌>>◌, if◌then◌else◌, Float, float_pos, float_neg,
  ◌+◌,
}
use trackflow.Text.{Text, text, text_eq, trim_space, to_lower, is_empty, contains}
use trackflow.Text.Uuid.{is_uuid}
use trackflow.Text.Number.{atoi}
use trackflow.Order.Model.{AddressInput, CreateOrderInput, AssignOrderInput}
use trackflow.Tracking.Model.{UpdateStatusInput}
use trackflow.Tracking.Handler.{Body, decode_body}
use trackflow.Http.{Header, get}
use trackflow.Gateway.Error.{HttpError, new_http_error}

abbrev pub max_gateway_request_body_size : ℕ
max_gateway_request_body_size = 131_072

abbrev pub max_orders_list_limit : ℕ
max_orders_list_limit = 100

abbrev pub max_timeline_list_limit : ℕ
max_timeline_list_limit = 200

abbrev pub max_idempotency_key_length : ℕ
max_idempotency_key_length = 128

-- `len` of a string: the bytes of its UTF-8.
rune_width : ℕ → ℕ
rune_width c = if ltb c 0x80 then 1 else if ltb c 0x800 then 2 else if ltb c 0x10000 then 3 else 4

unfoldable pub byte_length : Text → ℕ
unfolding rune_width
byte_length [] = 0
byte_length (c ∷ s) = rune_width c + byte_length s

-- `request_id` is what getRequestID finds in the context.
pub record Request : Type 0 where
  pub method : Text
  pub path : Text
  pub path_id : Text
  pub raw_query : Text
  pub limit : Text
  pub header : Header
  pub request_id : Text
  pub content : Option Text
  pub create_body : Body CreateOrderInput
  pub assign_body : Body AssignOrderInput
  pub update_body : Body UpdateStatusInput

abbrev pub validation_error : Text → HttpError
validation_error message = new_http_error 400 (text "validation_error") message

-- validationError, for the test that asks for it.
abbrev pub refuse_if : Bool → Text → Result HttpError (Unit {0})
refuse_if test message = fail_if test (validation_error message)

service_levels : List Text
service_levels = text "standard" ∷ text "express" ∷ []

statuses : List Text
statuses =
    text "created" ∷ text "assigned" ∷ text "in_transit" ∷ text "delivered" ∷ text "cancelled" ∷ []

status_sources : List Text
status_sources = text "system" ∷ text "courier" ∷ text "manager" ∷ text "carrier_sync" ∷ []

unfoldable pub validate_order_id : Text → Result HttpError (Unit {0})
validate_order_id order_id = do
  let id = trim_space order_id
  refuse_if (is_empty id) (text "order_id is required")
  refuse_if (not (is_uuid id)) (text "order_id must be a valid UUID")

within_limit : ℕ → ℤ → Result HttpError (Unit {0})
within_limit max limit = do
  refuse_if (lebℤ limit (pos 0)) (text "limit must be greater than zero")
  refuse_if (ltbℤ (pos max) limit) (text "limit is too large")

unfoldable pub validate_limit : Text → ℕ → Result HttpError (Unit {0})
unfolding within_limit atoi
validate_limit raw max = if is_empty raw then ok tt else elim (atoi raw) [
  | none ↦ err (validation_error (text "limit must be an integer"))
  | some limit ↦ within_limit max limit
]

-- The text that was read, as the decoder takes it.
decode_content : {A : Type 0} → Body A → Text → Result HttpError A
decode_content body content = do
  refuse_if (ltb max_gateway_request_body_size (byte_length content))
      (text "request body is too large")
  refuse_if (is_empty (trim_space content)) (text "request body is required")
  elim (decode_body body) [
    | none ↦ err (validation_error (text "invalid json payload"))
    | some value ↦ ok value
  ]

unfoldable pub decode_and_restore_json_body : {A : Type 0} → Request → Body A → Result HttpError A
unfolding decode_content decode_body byte_length
decode_and_restore_json_body r body = elim r.content [
  | none ↦ err (validation_error (text "failed to read request body"))
  | some content ↦ decode_content body content
]

unfoldable pub validate_create_address : Text → AddressInput → Result HttpError (Unit {0})
validate_create_address field value = do
  refuse_if (is_empty (trim_space value.city)) (field ++ text ".city is required")
  refuse_if (is_empty (trim_space value.street)) (field ++ text ".street is required")
  refuse_if (is_empty (trim_space value.house)) (field ++ text ".house is required")
  refuse_if (ltbℤ value.lat (float_neg 90) || ltbℤ (float_pos 90) value.lat)
      (field ++ text ".lat must be in range [-90, 90]")
  refuse_if (ltbℤ value.lng (float_neg 180) || ltbℤ (float_pos 180) value.lng)
      (field ++ text ".lng must be in range [-180, 180]")

-- What validateCreateOrderRequest asks of the decoded body.
unfoldable pub validate_create_payload : CreateOrderInput → Result HttpError (Unit {0})
unfolding service_levels
validate_create_payload payload = do
  refuse_if (not (is_uuid (trim_space payload.customer_id)))
      (text "customer_id must be a valid UUID")
  validate_create_address (text "pickup_address") payload.pickup_address
  validate_create_address (text "dropoff_address") payload.dropoff_address
  refuse_if (lebℤ payload.weight_kg (pos 0)) (text "weight_kg must be greater than zero")
  refuse_if (ltbℤ payload.distance_km (pos 0))
      (text "distance_km must be greater than or equal to zero")
  let service_level = to_lower (trim_space payload.service_level)
  refuse_if (not (is_empty service_level) && not (contains service_levels service_level))
      (text "service_level must be one of: standard, express")

unfoldable pub validate_create_order_request : Request → Result HttpError (Unit {0})
validate_create_order_request r = do
  let idempotency_key = trim_space (get r.header (text "Idempotency-Key"))
  refuse_if (is_empty idempotency_key) (text "Idempotency-Key header is required")
  refuse_if (ltb max_idempotency_key_length (byte_length idempotency_key))
      (text "Idempotency-Key is too long")
  payload ← decode_and_restore_json_body r r.create_body
  validate_create_payload payload

-- `value != "" && strings.TrimSpace(value) == ""`.
is_blank : Text → Bool
is_blank value = not (is_empty value) && is_empty (trim_space value)

unfoldable pub validate_assign_payload : AssignOrderInput → Result HttpError (Unit {0})
unfolding is_blank
validate_assign_payload payload = do
  refuse_if (not (is_uuid (trim_space payload.courier_id))) (text "courier_id must be a valid UUID")
  refuse_if (is_blank payload.assigned_by) (text "assigned_by must not be blank")
  refuse_if (is_blank payload.comment) (text "comment must not be blank")

unfoldable pub validate_assign_order_request : Request → Result HttpError (Unit {0})
validate_assign_order_request r = do
  payload ← decode_and_restore_json_body r r.assign_body
  validate_assign_payload payload

-- json.Unmarshal into `any`: not JSON, an object, or another value.
pub data Parsed : Type 0 where
  not_json : Parsed
  json_object : Parsed
  other_value : Parsed

unfoldable pub validate_metadata : Parsed → Result HttpError (Unit {0})
validate_metadata not_json = err (validation_error (text "metadata must be valid JSON"))
validate_metadata json_object = ok tt
validate_metadata other_value = err (validation_error (text "metadata must be a JSON object"))

module _ (parse : Text → Parsed) where
  unfoldable pub validate_update_payload : UpdateStatusInput → Result HttpError (Unit {0})
  unfolding statuses status_sources is_blank validate_metadata
  validate_update_payload payload = do
    let status = to_lower (trim_space payload.status)
    refuse_if (is_empty status) (text "status is required")
    refuse_if (not (contains statuses status)) (text "status is invalid")
    let source = to_lower (trim_space payload.source)
    refuse_if (not (is_empty source) && not (contains status_sources source))
        (text "source is invalid")
    refuse_if (is_blank payload.comment) (text "comment must not be blank")
    if is_empty payload.metadata then ok tt else validate_metadata (parse payload.metadata)

  unfoldable pub validate_update_status_request : Request → Result HttpError (Unit {0})
  validate_update_status_request r = do
    payload ← decode_and_restore_json_body r r.update_body
    validate_update_payload payload
