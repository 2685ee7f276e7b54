-- ===== src/Order/Repository.antt =====
-- services/order-service/internal/repository/postgres/order_repository.go
pub mod Inserts
pub mod Creation
pub mod Assignment
pub mod Lookup
use trackflow.Prelude.{
  ℕ, ℤ, pos, negsuc, lebℤ, ltbℤ, pos_part, Bool, true, false, not, ◌&&◌, ◌||◌, List, [], ◌∷◌, ◌++◌,
  map, take, leb, ◌==◌, Option, none, some, Result, ok, err, if◌then◌else◌, Float,
}
use trackflow.Prelude.Action.{Action, pure, raise, ◌>>=◌, ◌>>◌, lift, wrapping}
use trackflow.Text.{Text, text, text_eq, to_lower}
use trackflow.Database.{
  Postgres, OrderRow, AddressRow, CourierRow, AssignmentRow, HistoryRow, Database, DriverError,
  no_rows, fault, failed, server, Session, Statement, execute, find_order, update_order,
  null_if_empty, cast_uuid, cast_enum, service_levels, draw_id, unacknowledged,
}
use trackflow.Database.Transactions.{transaction}
use trackflow.Order.Error.{
  Error, database_not_configured, order_not_found, courier_not_found, order_already_assigned,
  assignment_not_allowed, duplicate_idempotency, external,
}
use trackflow.Order.Model.{Order, AddressInput, CreateOrderInput, AssignOrderInput}
use trackflow.Order.Service.{Repository}
use trackflow.Order.Statements.{
  list_orders_query, get_order_by_id_query, get_order_by_idempotency_key_query,
  is_courier_active_query, select_order_status_query, insert_assignment_query,
  update_order_status_to_assigned_query, insert_assigned_status_history_query, insert_address_query,
  insert_order_query,
}

-- The pool behind `r.db`, or nil.
pub record OrderRepository : Type 0 where
  pub has_db : Bool

-- An error of the driver, passed on.
abbrev pub passed_on : DriverError → Error
passed_on no_rows = external (text "sql: no rows in result set")
passed_on (fault (failed what)) = external what
passed_on (fault (server code constraint what)) = external what
passed_on (fault (unacknowledged what)) = external what

-- `errors.Is(err, sql.ErrNoRows)`.
abbrev pub missing_order : DriverError → Error
missing_order no_rows = order_not_found
missing_order (fault f) = passed_on (fault f)

-- strings.EqualFold with a text of lower-case letters from a to z and underscores: of the other
-- code points only the long s folds to one of them and is its own lower case.
fold_rune : ℕ → ℕ
fold_rune c = if c == 0x17f then b's' else c

equal_fold : Text → Text → Bool
unfolding fold_rune
equal_fold s t = text_eq (map fold_rune (to_lower s)) t

-- A unique violation of the named constraint.
is_conflict : Text → DriverError → Bool
unfolding equal_fold
is_conflict name no_rows = false
is_conflict name (fault (failed what)) = false
is_conflict name (fault (unacknowledged what)) = false
is_conflict name (fault (server code constraint what)) =
    text_eq code (text "23505") && equal_fold constraint name

unfoldable pub is_idempotency_conflict : DriverError → Bool
unfolding is_conflict
is_idempotency_conflict e = is_conflict (text "uq_orders_idempotency_key") e

unfoldable pub is_assignment_conflict : DriverError → Bool
unfolding is_conflict
is_assignment_conflict e = is_conflict (text "uq_assignments_order_id") e

unfoldable pub idempotency_failure : DriverError → Error
idempotency_failure e = if is_idempotency_conflict e then duplicate_idempotency else passed_on e

unfoldable pub assignment_failure : DriverError → Error
assignment_failure e = if is_assignment_conflict e then order_already_assigned else passed_on e

-- rows.Scan, and scanOrder.
unfoldable pub scan_order : OrderRow → Order
scan_order row = record {
  id = row.id;
  customer_id = row.customer_id;
  status = row.status;
  created_at = row.created_at;
  updated_at = row.updated_at;
}

module _ (pg : Postgres) where
  unfoldable pub ping : OrderRepository → Action Session Error (Unit {0})
  ping r =
      if r.has_db then wrapping passed_on (execute (pure tt)) else raise database_not_configured

  -- rows.Next, rows.Scan and rows.Err: the rows, or the error that ends the reading.
  read_orders : ℤ → Action Session Error (List Order)
  read_orders limit = do
    rows ← wrapping passed_on (execute (list_orders_query pg limit))
    wrapping passed_on (execute (pure (map scan_order rows)))

  unfoldable pub list_orders : OrderRepository → ℤ → Action Session Error (List Order)
  unfolding read_orders
  list_orders r limit = if r.has_db then read_orders limit else raise database_not_configured

  scanned : (DriverError → Error) → Statement OrderRow → Action Session Error Order
  scanned failure query = do row ← wrapping failure (execute query); pure (scan_order row)

  unfoldable pub get_order_by_id : OrderRepository → Text → Action Session Error Order
  unfolding scanned
  get_order_by_id r order_id =
      if r.has_db
      then scanned missing_order (get_order_by_id_query pg order_id)
      else raise database_not_configured

  unfoldable pub get_order_by_idempotency_key : OrderRepository → Text → Action Session Error Order
  unfolding scanned
  get_order_by_idempotency_key r key =
      if r.has_db
      then scanned missing_order (get_order_by_idempotency_key_query pg key)
      else raise database_not_configured

  -- The test of the status read under the row lock.
  unfoldable pub assignable : Text → Result Error (Unit {0})
  assignable current_status =
      if text_eq current_status (text "assigned")
      then err order_already_assigned
      else if text_eq current_status (text "created")
      then ok tt
      else err assignment_not_allowed

  -- What stands between BeginTx and Commit of AssignOrder.
  unfoldable pub assign_statements : Text → AssignOrderInput → Action Session Error Order
  assign_statements order_id input = do
    current_status ← wrapping missing_order (execute (select_order_status_query pg order_id))
    lift (assignable current_status)
    courier_active ← wrapping passed_on (execute (is_courier_active_query pg input.courier_id))
    lift (if courier_active then ok tt else err courier_not_found)
    wrapping assignment_failure (
        execute
          (insert_assignment_query pg order_id input.courier_id input.assigned_by input.comment))
    row ← wrapping missing_order (execute (update_order_status_to_assigned_query pg order_id))
    wrapping passed_on
        (execute (insert_assigned_status_history_query pg order_id input.comment input.courier_id))
    pure (scan_order row)

  unfoldable pub assign_order :
      OrderRepository → Text → AssignOrderInput → Action Session Error Order
  assign_order r order_id input =
      if r.has_db
      then transaction passed_on assignment_failure (assign_statements order_id input)
      else raise database_not_configured

  -- insertAddress
  insert_address : AddressInput → Action Session Error Text
  insert_address input = wrapping passed_on (execute (insert_address_query pg input))

  -- What stands between BeginTx and Commit of CreateOrder.
  unfoldable pub create_statements : CreateOrderInput → Text → Action Session Error Order
  unfolding insert_address
  create_statements input idempotency_key = do
    pickup_address_id ← insert_address input.pickup_address
    dropoff_address_id ← insert_address input.dropoff_address
    row ←
        wrapping idempotency_failure (
          execute
            (insert_order_query pg input pickup_address_id dropoff_address_id idempotency_key))
    pure (scan_order row)

  unfoldable pub create_order :
      OrderRepository → CreateOrderInput → Text → Action Session Error Order
  create_order r input idempotency_key =
      if r.has_db
      then transaction passed_on idempotency_failure (create_statements input idempotency_key)
      else raise database_not_configured

  -- `var _ service.Repository = (*OrderRepository)(nil)`
  unfoldable pub repository : OrderRepository → Repository Session
  unfolding ping list_orders get_order_by_id get_order_by_idempotency_key assign_order create_order
  repository r = record {
    ping = ping r;
    list_orders = list_orders r;
    get_order_by_id = get_order_by_id r;
    assign_order = assign_order r;
    create_order = create_order r;
    get_order_by_idempotency_key = get_order_by_idempotency_key r;
  }
