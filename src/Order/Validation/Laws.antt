-- ===== src/Order/Validation/Laws.antt =====
-- What the checks of services/order-service/internal/service/service.go let through.
use trackflow.Prelude.{◌≡◌, ok, arith, refl, inl, inr, true, false, ap, ◌⊎◌, pos, lebℤ, ltbℤ}
use trackflow.Text.{Text, text, trim_space, to_lower}
use trackflow.Text.Laws.{text_eq_iff, trim_space-trim_space}
use trackflow.Order.Model.{AddressInput, CreateOrderInput}
use trackflow.Order.Validation.{
  normalize_address_input, validate_address, checked_uuid, service_level_of, is_service_level,
  normalize_create_input,
}

checked_uuid-checked_uuid :
    (field_name value id : Text)
    → checked_uuid field_name value ≡ ok id
    → checked_uuid field_name id ≡ ok id
unfolding checked_uuid
checked_uuid-checked_uuid field_name value id h = ground (arith, trim_space-trim_space value)

normalize_address_input-again :
    (input : AddressInput)
    → normalize_address_input (normalize_address_input input) ≡ normalize_address_input input
unfolding normalize_address_input
normalize_address_input-again input = ground (
  arith,
  trim_space-trim_space input.city,
  trim_space-trim_space input.street,
  trim_space-trim_space input.house,
  trim_space-trim_space input.apartment,
)

is_service_level-cases :
    (level : Text)
    → is_service_level level ≡ true
    → (level ≡ text "standard") ⊎ (level ≡ text "express")
unfolding is_service_level
is_service_level-cases level h =
    ground (arith, text_eq_iff level (text "standard"), text_eq_iff level (text "express"))

service_level_of-again :
    (level : Text) → is_service_level level ≡ true → service_level_of level ≡ level
unfolding service_level_of trim_space to_lower
service_level_of-again level h = elim (is_service_level-cases level h) [
  | inl standard ↦ rw standard refl
  | inr express ↦ rw express refl
]

-- The tests that an accepted request has passed, and the request that is stored for it.
pub record IsAccepted (input normalized : CreateOrderInput) : Type 0 where
  pub customer_id : checked_uuid (text "customer_id") input.customer_id ≡ ok normalized.customer_id
  pub pickup_address :
      validate_address (text "pickup_address") (normalize_address_input input.pickup_address)
      ≡ ok tt
  pub dropoff_address :
      validate_address (text "dropoff_address") (normalize_address_input input.dropoff_address)
      ≡ ok tt
  pub weight_kg : lebℤ input.weight_kg (pos 0) ≡ false
  pub distance_km : ltbℤ input.distance_km (pos 0) ≡ false
  pub level : is_service_level (service_level_of input.service_level) ≡ true
  pub as_given : normalized ≡ record {
    customer_id = normalized.customer_id;
    pickup_address = normalize_address_input input.pickup_address;
    dropoff_address = normalize_address_input input.dropoff_address;
    weight_kg = input.weight_kg;
    distance_km = input.distance_km;
    service_level = service_level_of input.service_level;
  }

pub normalize_create_input-IsAccepted :
    (input normalized : CreateOrderInput)
    → normalize_create_input input ≡ ok normalized
    → IsAccepted input normalized
unfolding normalize_create_input
normalize_create_input-IsAccepted input normalized h = record {
  customer_id = ground arith;
  pickup_address = ground arith;
  dropoff_address = ground arith;
  weight_kg = ground arith;
  distance_km = ground arith;
  level = ground arith;
  as_given = ground arith;
}

pub IsAccepted-ok :
    (input normalized : CreateOrderInput)
    → IsAccepted input normalized
    → normalize_create_input input ≡ ok normalized
unfolding normalize_create_input
IsAccepted-ok input normalized a = ground (
  arith, a.customer_id, a.pickup_address, a.dropoff_address, a.weight_kg, a.distance_km, a.level,
  a.as_given,
)

-- What the service hands to its repository passes its own checks unchanged.
pub normalize_create_input-again :
    (input normalized : CreateOrderInput)
    → normalize_create_input input ≡ ok normalized
    → normalize_create_input normalized ≡ ok normalized
normalize_create_input-again input normalized h =
    let a = normalize_create_input-IsAccepted input normalized h in
    let same_pickup = ap (λ n. n.pickup_address) a.as_given in
    let same_dropoff = ap (λ n. n.dropoff_address) a.as_given in
    let same_weight = ap (λ n. n.weight_kg) a.as_given in
    let same_distance = ap (λ n. n.distance_km) a.as_given in
    let same_level = ap (λ n. n.service_level) a.as_given in
    let pickup_again = normalize_address_input-again input.pickup_address in
    let dropoff_again = normalize_address_input-again input.dropoff_address in
    let level_again = service_level_of-again (service_level_of input.service_level) a.level in
    IsAccepted-ok normalized normalized record {
      customer_id =
          checked_uuid-checked_uuid (text "customer_id") input.customer_id normalized.customer_id
            a.customer_id;
      pickup_address = cc (a.pickup_address);
      dropoff_address = cc (a.dropoff_address);
      weight_kg = cc (a.weight_kg);
      distance_km = cc (a.distance_km);
      level = cc (a.level);
      as_given = cc;
    }
