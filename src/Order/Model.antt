-- ===== src/Order/Model.antt =====
-- services/order-service/internal/model/order.go
use trackflow.Prelude.{ℕ, Float}
use trackflow.Text.{Text}

-- Instants are numbers of nanoseconds.
pub record Order : Type 0 where
  pub id : Text
  pub customer_id : Text
  pub status : Text
  pub created_at : ℕ
  pub updated_at : ℕ

pub record AddressInput : Type 0 where
  pub city : Text
  pub street : Text
  pub house : Text
  pub apartment : Text
  pub lat : Float
  pub lng : Float

pub record CreateOrderInput : Type 0 where
  pub customer_id : Text
  pub pickup_address : AddressInput
  pub dropoff_address : AddressInput
  pub weight_kg : Float
  pub distance_km : Float
  pub service_level : Text

pub record AssignOrderInput : Type 0 where
  pub courier_id : Text
  pub assigned_by : Text
  pub comment : Text
