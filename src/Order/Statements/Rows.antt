-- ===== src/Order/Statements/Rows.antt =====
-- The rows that the statements of order_repository.go read and write.
use trackflow.Prelude.{ℕ, ℤ, List, [], ◌∷◌, ◌++◌, leb, Option, none, some, if◌then◌else◌}
use trackflow.Text.{Text, text, text_eq}
use trackflow.Database.{OrderRow, AddressRow, CourierRow, AssignmentRow, HistoryRow, null_if_empty}
use trackflow.Order.Model.{AddressInput}

-- ORDER BY created_at DESC; rows of one instant stay in the order of the table.
insert_latest : OrderRow → List OrderRow → List OrderRow
insert_latest row [] = row ∷ []
insert_latest row (other ∷ rows) =
    if leb other.created_at row.created_at
    then row ∷ (other ∷ rows)
    else other ∷ insert_latest row rows

unfoldable pub latest_first : List OrderRow → List OrderRow
unfolding insert_latest
latest_first [] = []
latest_first (row ∷ rows) = insert_latest row (latest_first rows)

-- WHERE idempotency_key = ….
unfoldable pub find_key : Text → List OrderRow → Option OrderRow
find_key key [] = none
find_key key (row ∷ rows) = if text_eq row.idempotency_key key then some row else find_key key rows

unfoldable pub find_courier : Text → List CourierRow → Option CourierRow
find_courier id [] = none
find_courier id (row ∷ rows) = if text_eq row.id id then some row else find_courier id rows

unfoldable pub find_assignment : Text → List AssignmentRow → Option AssignmentRow
find_assignment id [] = none
find_assignment id (row ∷ rows) =
    if text_eq row.order_id id then some row else find_assignment id rows

-- The rows that are inserted.
abbrev pub address_row : Text → AddressInput → ℤ → ℤ → AddressRow
address_row id input lat lng = record {
  id = id;
  city = input.city;
  street = input.street;
  house = input.house;
  apartment = null_if_empty input.apartment;
  lat = lat;
  lng = lng;
}

abbrev pub order_row : Text → Text → Text → Text → ℤ → ℤ → Text → Text → ℕ → OrderRow
order_row id customer pickup dropoff weight distance level key now = record {
  id = id;
  customer_id = customer;
  pickup_address_id = pickup;
  dropoff_address_id = dropoff;
  weight_kg = weight;
  distance_km = distance;
  service_level = level;
  status = text "created";
  idempotency_key = key;
  last_status_at = now;
  created_at = now;
  updated_at = now;
}

abbrev pub assignment_row : Text → Text → Text → ℕ → Text → Text → AssignmentRow
assignment_row id order courier now assigned_by comment = record {
  id = id;
  order_id = order;
  courier_id = courier;
  assigned_at = now;
  assigned_by = null_if_empty assigned_by;
  comment = null_if_empty comment;
}

-- The row of an order that is assigned.
abbrev pub assigned_row : ℕ → OrderRow → OrderRow
assigned_row now row = record row {
  status = text "assigned";
  last_status_at = now;
  updated_at = now;
}

-- jsonb_build_object('courier_id', …), as the server prints it.
abbrev pub courier_json : Text → Text
courier_json courier = text "{\"courier_id\": \"" ++ (courier ++ text "\"}")

-- The history row of an assignment.
abbrev pub assigned_entry : Text → Text → Text → Text → ℕ → HistoryRow
assigned_entry drawn id courier comment now = record {
  id = drawn;
  order_id = id;
  status = text "assigned";
  source = text "manager";
  comment = null_if_empty comment;
  metadata = some (courier_json courier);
  created_at = now;
}
