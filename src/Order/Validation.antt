-- ===== src/Order/Validation.antt =====
-- The checks of services/order-service/internal/service/service.go.
pub mod Laws
use trackflow.Prelude.{
  ℕ, ℤ, pos, lebℤ, ltbℤ, Bool, not, ◌||◌, ◌++◌, Result, ok, err, fail_if, ◌>>=◌, ◌>>◌,
  if◌then◌else◌, Float, float_pos, float_neg,
}
use trackflow.Text.{Text, text, text_eq, trim_space, to_lower, is_empty}
use trackflow.Text.Uuid.{is_uuid}
use trackflow.Order.Error.{Error, invalid_input}
use trackflow.Order.Model.{AddressInput, CreateOrderInput, AssignOrderInput}

abbrev pub default_list_limit : ℤ
default_list_limit = pos 20

abbrev pub max_list_limit : ℤ
max_list_limit = pos 100

abbrev pub default_service_level : Text
default_service_level = text "standard"

-- validationError, for the test that asks for it.
abbrev pub invalid_if : Bool → Text → Result Error (Unit {0})
invalid_if test what = fail_if test (invalid_input what)

unfoldable pub normalize_limit : ℤ → ℤ
normalize_limit limit =
    if lebℤ limit (pos 0)
    then default_list_limit
    else if ltbℤ max_list_limit limit
    then max_list_limit
    else limit

unfoldable pub normalize_address_input : AddressInput → AddressInput
normalize_address_input input = record input {
  city = trim_space input.city;
  street = trim_space input.street;
  house = trim_space input.house;
  apartment = trim_space input.apartment;
}

-- `value < -bound || value > bound`.
unfoldable pub out_of_range : ℕ → Float → Bool
out_of_range bound value = ltbℤ value (float_neg bound) || ltbℤ (float_pos bound) value

unfoldable pub validate_address : Text → AddressInput → Result Error (Unit {0})
validate_address field_name address = do
  invalid_if (is_empty address.city) (field_name ++ text ".city is required")
  invalid_if (is_empty address.street) (field_name ++ text ".street is required")
  invalid_if (is_empty address.house) (field_name ++ text ".house is required")
  invalid_if (out_of_range 90 address.lat) (field_name ++ text ".lat must be in range [-90, 90]")
  invalid_if (out_of_range 180 address.lng) (field_name ++ text ".lng must be in range [-180, 180]")

-- An id that must be a UUID, trimmed.
unfoldable pub checked_uuid : Text → Text → Result Error Text
checked_uuid field_name value = do
  let id = trim_space value
  invalid_if (is_empty id) (field_name ++ text " is required")
  invalid_if (not (is_uuid id)) (field_name ++ text " must be a valid UUID")
  ok id

-- The service level, trimmed, in lower case, and with its default.
unfoldable pub service_level_of : Text → Text
service_level_of value =
    let level = to_lower (trim_space value) in
    if is_empty level then default_service_level else level

unfoldable pub is_service_level : Text → Bool
is_service_level level = text_eq level (text "standard") || text_eq level (text "express")

unfoldable pub normalize_create_input : CreateOrderInput → Result Error CreateOrderInput
normalize_create_input input = do
  customer_id ← checked_uuid (text "customer_id") input.customer_id
  let pickup_address = normalize_address_input input.pickup_address
  let dropoff_address = normalize_address_input input.dropoff_address
  validate_address (text "pickup_address") pickup_address
  validate_address (text "dropoff_address") dropoff_address
  invalid_if (lebℤ input.weight_kg (pos 0)) (text "weight_kg must be greater than zero")
  invalid_if (ltbℤ input.distance_km (pos 0))
      (text "distance_km must be greater than or equal to zero")
  let service_level = service_level_of input.service_level
  invalid_if (not (is_service_level service_level))
      (text "service_level must be one of: standard, express")
  ok record {
    customer_id = customer_id;
    pickup_address = pickup_address;
    dropoff_address = dropoff_address;
    weight_kg = input.weight_kg;
    distance_km = input.distance_km;
    service_level = service_level;
  }

unfoldable pub normalize_assign_input : AssignOrderInput → Result Error AssignOrderInput
normalize_assign_input input = do
  courier_id ← checked_uuid (text "courier_id") input.courier_id
  ok record {
    courier_id = courier_id;
    assigned_by = trim_space input.assigned_by;
    comment = trim_space input.comment;
  }
