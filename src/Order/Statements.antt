-- ===== src/Order/Statements.antt =====
-- The statements of services/order-service/internal/repository/postgres/order_repository.go. A row
-- is inserted with the constraints of migrations/postgres that the services do not ensure alone: the
-- checks, and the uniqueness of keys and assignments. Foreign keys hold by the rows read or made
-- before.
mod Rows
unfoldable pub use Rows.{
  latest_first, find_key, find_courier, find_assignment, address_row, order_row, assignment_row,
  assigned_row, courier_json, assigned_entry,
}
use trackflow.Prelude.{
  ℕ, ℤ, pos, lebℤ, ltbℤ, pos_part, Bool, true, false, not, ◌&&◌, List, [], ◌∷◌, ◌++◌, take, leb,
  ◌==◌, Option, none, some, ok, err, if◌then◌else◌, Float, neg_part,
}
use trackflow.Prelude.Action.{◌>>=◌, ◌>>◌}
use trackflow.Text.{Text, text, text_eq}
use trackflow.Database.{
  Postgres, OrderRow, AddressRow, CourierRow, AssignmentRow, HistoryRow, no_rows, fault, server,
  Statement, find_order, update_order, null_if_empty, cast_uuid, cast_enum, service_levels, draw_id,
  check, not_before_created, is_blank, is_blank_option,
}
use trackflow.Order.Model.{AddressInput, CreateOrderInput}

-- A unique constraint that is violated, SQLSTATE 23505.
unfoldable pub unique : {A : Type 0} → Option A → Text → Statement (Unit {0})
unique none constraint s = (ok tt, s)
unique (some a) constraint s =
    (err (fault (server (text "23505") constraint (text "duplicate key value"))), s)

one_row : {A : Type 0} → Option A → Statement A
one_row none s = (err no_rows, s)
one_row (some a) s = (ok a, s)

-- `value >= -bound AND value <= bound`.
unfoldable pub within : ℕ → ℤ → Bool
within bound value = leb (pos_part value) bound && leb (neg_part value) bound

module _ (pg : Postgres) where
  -- The assignment of a float64 to a NUMERIC column.
  unfoldable pub cast_numeric : ℕ → ℕ → Float → Statement ℤ
  cast_numeric precision scale value s = elim (pg.to_numeric precision scale value) [
    | none ↦ (err (fault (server (text "22003") [] (text "numeric field overflow"))), s)
    | some n ↦ (ok n, s)
  ]

  -- listOrdersQuery
  unfoldable pub list_orders_query : ℤ → Statement (List OrderRow)
  list_orders_query limit s = (ok (take (pos_part limit) (latest_first s.database.orders)), s)

  -- getOrderByIDQuery
  unfoldable pub get_order_by_id_query : Text → Statement OrderRow
  unfolding one_row
  get_order_by_id_query order_id = do
    id ← cast_uuid pg order_id
    λ s. one_row (find_order id s.database.orders) s

  -- getOrderByIdempotencyKeyQuery
  unfoldable pub get_order_by_idempotency_key_query : Text → Statement OrderRow
  unfolding one_row
  get_order_by_idempotency_key_query key s = one_row (find_key key s.database.orders) s

  -- isCourierActiveQuery
  unfoldable pub is_courier_active_query : Text → Statement Bool
  is_courier_active_query courier_id = do
    id ← cast_uuid pg courier_id
    λ s. elim (find_courier id s.database.couriers) [
      | none ↦ (ok false, s)
      | some courier ↦ (ok courier.is_active, s)
    ]

  -- selectOrderStatusForUpdateQuery
  unfoldable pub select_order_status_query : Text → Statement Text
  select_order_status_query order_id = do
    id ← cast_uuid pg order_id
    λ s. elim (find_order id s.database.orders) [
      | none ↦ (err no_rows, s)
      | some row ↦ (ok row.status, s)
    ]

  -- insertAssignmentQuery
  unfoldable pub insert_assignment_query : Text → Text → Text → Text → Statement (Unit {0})
  insert_assignment_query order_id courier_id assigned_by comment = do
    id ← cast_uuid pg order_id
    courier ← cast_uuid pg courier_id
    check (not (is_blank_option (null_if_empty assigned_by)))
        (text "chk_assignments_assigned_by_not_blank")
    λ s. unique (find_assignment id s.database.assignments) (text "uq_assignments_order_id") s
    drawn ← draw_id pg
    λ s. (
      ok tt,
      record s {
        database = record (s.database) {
          assignments =
              s.database.assignments
              ++ assignment_row drawn id courier s.now assigned_by comment ∷ [];
        };
      },
    )

  -- updateOrderStatusToAssignedQuery, and the trigger that sets updated_at
  unfoldable pub update_order_status_to_assigned_query : Text → Statement OrderRow
  unfolding one_row
  update_order_status_to_assigned_query order_id = do
    id ← cast_uuid pg order_id
    λ s.
        check (not_before_created (find_order id s.database.orders) s.now)
          (text "chk_orders_last_status_at_not_before_created") s
    λ s. (
      ok tt,
      record s {
        database = record (s.database) {
          orders = update_order id (assigned_row s.now) s.database.orders;
        };
      },
    )
    λ s. one_row (find_order id s.database.orders) s

  -- insertAssignedStatusHistoryQuery
  unfoldable pub insert_assigned_status_history_query : Text → Text → Text → Statement (Unit {0})
  insert_assigned_status_history_query order_id comment courier_id = do
    id ← cast_uuid pg order_id
    courier ← cast_uuid pg courier_id
    check (not (is_blank_option (null_if_empty comment)))
        (text "chk_order_status_history_comment_not_blank")
    drawn ← draw_id pg
    λ s. (
      ok tt,
      record s {
        database = record (s.database) {
          history = s.database.history ++ assigned_entry drawn id courier comment s.now ∷ [];
        };
      },
    )

  -- insertAddressQuery
  unfoldable pub insert_address_query : AddressInput → Statement Text
  insert_address_query input = do
    lat ← cast_numeric 9 6 input.lat
    lng ← cast_numeric 9 6 input.lng
    check (not (is_blank input.city)) (text "chk_addresses_city_not_blank")
    check (not (is_blank input.street)) (text "chk_addresses_street_not_blank")
    check (not (is_blank input.house)) (text "chk_addresses_house_not_blank")
    check (within 90_000_000 lat) (text "chk_addresses_lat_range")
    check (within 180_000_000 lng) (text "chk_addresses_lng_range")
    drawn ← draw_id pg
    λ s. (
      ok drawn,
      record s {
        database = record (s.database) {
          addresses = s.database.addresses ++ address_row drawn input lat lng ∷ [];
        };
      },
    )

  -- insertOrderQuery
  unfoldable pub insert_order_query : CreateOrderInput → Text → Text → Text → Statement OrderRow
  insert_order_query input pickup_address_id dropoff_address_id idempotency_key = do
    customer ← cast_uuid pg input.customer_id
    pickup ← cast_uuid pg pickup_address_id
    dropoff ← cast_uuid pg dropoff_address_id
    weight ← cast_numeric 8 2 input.weight_kg
    distance ← cast_numeric 8 2 input.distance_km
    level ← cast_enum service_levels input.service_level
    check (not (is_blank idempotency_key)) (text "chk_orders_idempotency_key_not_blank")
    check (ltbℤ (pos 0) weight) (text "chk_orders_weight_positive")
    check (lebℤ (pos 0) distance) (text "chk_orders_distance_positive")
    check (not (text_eq pickup dropoff)) (text "chk_orders_pickup_dropoff_diff")
    λ s. unique (find_key idempotency_key s.database.orders) (text "uq_orders_idempotency_key") s
    drawn ← draw_id pg
    λ s.
        let row =
          order_row drawn customer pickup dropoff weight distance level idempotency_key s.now in
        (
          ok row,
          record s { database = record (s.database) { orders = s.database.orders ++ row ∷ [] } },
        )
