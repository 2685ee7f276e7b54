-- ===== src/Gateway/Validation/Agreement.antt =====
-- The gateway's checks of a creation beside those of order-service.
use trackflow.Prelude.{◌≡◌, Result, ok, err, arith, Bool, true, false, not, ◌&&◌, ◌∷◌, [], refl}
use trackflow.Text.{Text, text, trim_space, is_empty, to_lower, contains, lookup, text_eq}
use trackflow.Text.Laws.{text_eq_refl, trim_space-trim_space}
use trackflow.Text.Uuid.{is_uuid}
use trackflow.Order.Model.{AddressInput, CreateOrderInput}
use trackflow.Order.Validation.{
  normalize_address_input, validate_address, checked_uuid, service_level_of, is_service_level,
  normalize_create_input, out_of_range,
}
use trackflow.Tracking.Model.{UpdateStatusInput}
use trackflow.Tracking.Service.{checked_id, checked_status, checked_source}
use trackflow.Tracking.Status.{normalize_status, normalize_status_source}
use trackflow.Gateway.Validation.{
  validate_create_address, validate_create_payload, service_levels, validate_update_payload,
  statuses, validate_order_id, Parsed,
}
use trackflow.Database.{status_sources}

abbrev pub is_ok : {E A : Type 0} → Result E A → Bool
is_ok (ok a) = true
is_ok (err e) = false

-- A UUID is not empty.
is_uuid-empty : (s : Text) → is_empty s ≡ true → is_uuid s ≡ false
unfolding is_uuid
is_uuid-empty s h = ground arith

address_agreement :
    (field : Text) (address : AddressInput)
    → is_ok (validate_create_address field address)
      ≡ is_ok (validate_address field (normalize_address_input address))
unfolding validate_create_address validate_address normalize_address_input out_of_range
address_agreement field address = ground arith

customer_agreement :
    (field value : Text) → is_ok (checked_uuid field value) ≡ is_uuid (trim_space value)
unfolding checked_uuid
customer_agreement field value = ground (arith, is_uuid-empty (trim_space value))

level_agreement :
    (value : Text)
    → let level = to_lower (trim_space value) in
      not (not (is_empty level) && not (contains service_levels level))
      ≡ is_service_level (service_level_of value)
unfolding is_service_level service_level_of contains service_levels
level_agreement value = ground (arith, text_eq_refl (text "standard"))

-- The gateway lets a decoded creation through exactly if order-service's own checks of it pass.
pub validate_create_payload-agrees :
    (payload : CreateOrderInput)
    → is_ok (validate_create_payload payload) ≡ is_ok (normalize_create_input payload)
unfolding validate_create_payload normalize_create_input
validate_create_payload-agrees payload = ground (
  arith,
  customer_agreement (text "customer_id") payload.customer_id,
  address_agreement (text "pickup_address") payload.pickup_address,
  address_agreement (text "dropoff_address") payload.dropoff_address,
  level_agreement payload.service_level,
)

pub id_agreement : (id : Text) → is_ok (validate_order_id id) ≡ is_ok (checked_id id)
unfolding validate_order_id checked_id
id_agreement id = ground arith

to_lower-is_empty : (s : Text) → is_empty (to_lower s) ≡ is_empty s
unfolding to_lower
to_lower-is_empty [] = refl
to_lower-is_empty (c ∷ s) = refl

status_agreement :
    (status : Text)
    → contains statuses (to_lower (trim_space status)) ≡ is_ok (checked_status status)
unfolding statuses checked_status normalize_status contains lookup
status_agreement status = ground arith

-- What normalizing the source answers.
source_ok :
    (source : Text)
    → contains status_sources (to_lower (trim_space source))
      ≡ is_ok (normalize_status_source source)
unfolding normalize_status_source contains
source_ok source = ground arith

default_source : is_ok (normalize_status_source (text "system")) ≡ true
unfolding normalize_status_source contains to_lower trim_space text_eq
default_source = refl

source_agreement :
    (source : Text)
    → let value = to_lower (trim_space source) in
      not (not (is_empty value) && not (contains status_sources value))
      ≡ is_ok (checked_source source)
unfolding checked_source
source_agreement source = ground (
  arith,
  to_lower-is_empty (trim_space source),
  default_source,
  source_ok (trim_space source),
  trim_space-trim_space source,
)

-- An update whose body the gateway lets through passes the checks of tracking-service.
pub validate_update_payload-accepted :
    (parse : Text → Parsed) (payload : UpdateStatusInput)
    → validate_update_payload parse payload ≡ ok tt
    → (is_ok (checked_status payload.status) ≡ true)
      × (is_ok (checked_source payload.source) ≡ true)
unfolding validate_update_payload
validate_update_payload-accepted parse payload h = (
  ground (arith, status_agreement payload.status),
  ground (arith, source_agreement payload.source),
)
