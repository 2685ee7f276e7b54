-- ===== src/Order/Repository/Inserts.antt =====
-- What the inserts of a creation in order_repository.go do to the tables.
use trackflow.Prelude.{
  ◌≡◌, ◌++◌, [], ◌∷◌, ok, some, none, true, arith, refl, inl, inr, Option-cases, ◌≢◌, ℤ, pos, ltbℤ,
}
use trackflow.Text.{Text}
use trackflow.Database.{Postgres, OrderRow, AddressRow, Session, cast_uuid, cast_enum, draw_id}
use trackflow.Order.Model.{AddressInput, CreateOrderInput}
use trackflow.Order.Statements.{
  address_row, order_row, find_key, unique, cast_numeric, insert_address_query, insert_order_query,
}
use trackflow.Database.{check}

-- The statement that went through has added one address, and returns its id.
pub record IsAddress (pg : Postgres) (input : AddressInput) (s : Session) (id : Text)
    (after : Session) : Type 0 where
  pub row : AddressRow
  pub lat : pg.to_numeric 9 6 input.lat ≡ some row.lat
  pub lng : pg.to_numeric 9 6 input.lng ≡ some row.lng
  pub as_given : row ≡ address_row id input row.lat row.lng
  pub added : after.database ≡ record (s.database) { addresses = s.database.addresses ++ row ∷ [] }
  pub times : after.now ≡ s.now

module _ (pg : Postgres) (input : AddressInput) (s : Session) (id : Text)
    (h : (insert_address_query pg input s).0 ≡ ok id) where
  numeric-lat : pg.to_numeric 9 6 input.lat ≢ none
  unfolding insert_address_query cast_numeric
  numeric-lat bad = ground arith

  numeric-lng :
      (lat : ℤ) → pg.to_numeric 9 6 input.lat ≡ some lat → pg.to_numeric 9 6 input.lng ≢ none
  unfolding insert_address_query cast_numeric
  numeric-lng lat good bad = ground arith

  with_numerics :
      (lat lng : ℤ)
      → pg.to_numeric 9 6 input.lat ≡ some lat
      → pg.to_numeric 9 6 input.lng ≡ some lng
      → IsAddress pg input s id (insert_address_query pg input s).1
  unfolding insert_address_query cast_numeric check draw_id
  with_numerics lat lng hlat hlng = record {
    row = address_row id input lat lng;
    lat = hlat;
    lng = hlng;
    as_given = refl;
    added = ground arith;
    times = ground arith;
  }

  pub insert_address_query-IsAddress : IsAddress pg input s id (insert_address_query pg input s).1
  insert_address_query-IsAddress = elim (Option-cases (pg.to_numeric 9 6 input.lat)) [
    | inl bad ↦ absurd (numeric-lat bad)
    | inr (lat, hlat) ↦ elim (Option-cases (pg.to_numeric 9 6 input.lng)) [
      | inl bad ↦ absurd (numeric-lng lat hlat bad)
      | inr (lng, hlng) ↦ with_numerics lat lng hlat hlng
    ]
  ]

-- The statement that went through has added one order, the first of its key, and returns its row.
pub record IsNewOrder (pg : Postgres) (input : CreateOrderInput) (pickup dropoff key : Text)
    (s : Session) (row : OrderRow) (after : Session) : Type 0 where
  pub fresh : find_key key s.database.orders ≡ none
  pub customer_id : pg.parse_uuid input.customer_id ≡ some row.customer_id
  pub pickup_address_id : pg.parse_uuid pickup ≡ some row.pickup_address_id
  pub dropoff_address_id : pg.parse_uuid dropoff ≡ some row.dropoff_address_id
  pub weight_kg : pg.to_numeric 8 2 input.weight_kg ≡ some row.weight_kg
  pub distance_km : pg.to_numeric 8 2 input.distance_km ≡ some row.distance_km
  pub as_given :
      row
      ≡ order_row
          (pg.new_id s.drawn)
          row.customer_id
          row.pickup_address_id
          row.dropoff_address_id
          row.weight_kg
          row.distance_km
          input.service_level
          key
          s.now
  pub heavy : ltbℤ (pos 0) row.weight_kg ≡ true
  pub added : after.database ≡ record (s.database) { orders = s.database.orders ++ row ∷ [] }

module _ (pg : Postgres) (input : CreateOrderInput) (pickup dropoff key : Text) (s : Session)
    (row : OrderRow) (h : (insert_order_query pg input pickup dropoff key s).0 ≡ ok row) where
  pub insert_order_query-IsNewOrder :
      IsNewOrder pg input pickup dropoff key s row
        (insert_order_query pg input pickup dropoff key s).1
  unfolding insert_order_query cast_numeric cast_uuid cast_enum check unique draw_id
  insert_order_query-IsNewOrder = record {
    fresh = ground arith;
    customer_id = ground arith;
    pickup_address_id = ground arith;
    dropoff_address_id = ground arith;
    weight_kg = ground arith;
    distance_km = ground arith;
    as_given = ground arith;
    heavy = ground arith;
    added = ground arith;
  }
