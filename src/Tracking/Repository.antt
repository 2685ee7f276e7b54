-- ===== src/Tracking/Repository.antt =====
-- services/tracking-service/internal/repository/postgres/tracking_repository.go
pub mod Journal
pub mod Lifetime
pub mod Success
use trackflow.Prelude.{
  ℤ, pos_part, Bool, true, false, List, [], ◌∷◌, ◌++◌, map, take, leb, Option, none, some, Result,
  ok, err, ℕ, if◌then◌else◌, not,
}
use trackflow.Prelude.Action.{Action, pure, raise, ◌>>=◌, ◌>>◌, lift, wrapping}
use trackflow.Text.{Text, text, text_eq, contains}
use trackflow.Database.{
  Postgres, OrderRow, HistoryRow, Database, DriverError, no_rows, fault, failed, server, Session,
  order_statuses, status_sources, cast_enum, Statement, execute, find_order, update_order, bad_cast,
  null_if_empty, cast_uuid, draw_id, unacknowledged, check, not_before_created, is_blank_option,
}
use trackflow.Database.Transactions.{transaction}
use trackflow.Tracking.Error.{Error, database_not_configured, order_not_found, external}
use trackflow.Tracking.Model.{StatusHistoryItem}
use trackflow.Tracking.Status.{validate_status_transition}
use trackflow.Tracking.Service.{Repository}

-- The pool behind `r.db`, or nil.
pub record TrackingRepository : Type 0 where
  pub has_db : Bool

-- An error of the driver, passed on.
abbrev passed_on : DriverError → Error
passed_on no_rows = external (text "sql: no rows in result set")
passed_on (fault (failed what)) = external what
passed_on (fault (server code constraint what)) = external what
passed_on (fault (unacknowledged what)) = external what

-- `errors.Is(err, sql.ErrNoRows)`.
abbrev missing_order : DriverError → Error
missing_order no_rows = order_not_found
missing_order (fault f) = passed_on (fault f)

or_empty_metadata : Option Text → Text
or_empty_metadata none = []
or_empty_metadata (some m) = m

-- rows.Scan, and scanStatusHistoryItem after it.
unfoldable pub scan_status_history_item : HistoryRow → StatusHistoryItem
unfolding or_empty_metadata
scan_status_history_item row = record {
  id = row.id;
  order_id = row.order_id;
  status = row.status;
  source = row.source;
  comment = row.comment;
  metadata = or_empty_metadata row.metadata;
  created_at = row.created_at;
}

-- ORDER BY created_at ASC; rows of one instant stay in the order of the table.
insert_by_time : HistoryRow → List HistoryRow → List HistoryRow
insert_by_time row [] = row ∷ []
insert_by_time row (other ∷ rows) =
    if leb row.created_at other.created_at
    then row ∷ (other ∷ rows)
    else other ∷ insert_by_time row rows

unfoldable pub sort_by_time : List HistoryRow → List HistoryRow
unfolding insert_by_time
sort_by_time [] = []
sort_by_time (row ∷ rows) = insert_by_time row (sort_by_time rows)

-- WHERE order_id = ….
unfoldable pub history_of : Text → List HistoryRow → List HistoryRow
history_of id [] = []
history_of id (row ∷ rows) =
    let rest = history_of id rows in if text_eq row.order_id id then row ∷ rest else rest

module _ (pg : Postgres) where
  -- `$5::jsonb`; a nil slice is NULL.
  unfoldable pub cast_json : Text → Statement (Option Text)
  cast_json [] s = (ok none, s)
  cast_json (c ∷ value) s = elim (pg.parse_json (c ∷ value)) [
    | none ↦ (err (bad_cast (text "invalid input syntax for type json")), s)
    | some json ↦ (ok (some json), s)
  ]

  -- getOrderTimelineQuery
  timeline_query : Text → ℤ → Statement (List HistoryRow)
  timeline_query order_id limit = do
    id ← cast_uuid pg order_id
    λ s. (ok (take (pos_part limit) (sort_by_time (history_of id s.database.history))), s)

  -- orderExistsQuery
  order_exists_query : Text → Statement Bool
  order_exists_query order_id = do
    id ← cast_uuid pg order_id
    λ s. elim (find_order id s.database.orders) [ none ↦ (ok false, s) | some row ↦ (ok true, s) ]

  -- selectOrderStatusForUpdateQuery
  unfoldable pub select_order_status_query : Text → Statement Text
  select_order_status_query order_id = do
    id ← cast_uuid pg order_id
    λ s. elim (find_order id s.database.orders) [
      | none ↦ (err no_rows, s)
      | some row ↦ (ok row.status, s)
    ]

  -- updateOrderStatusQuery, and the trigger that sets updated_at
  unfoldable pub update_order_status_query : Text → Text → Statement (Unit {0})
  update_order_status_query order_id next_status = do
    id ← cast_uuid pg order_id
    status ← cast_enum order_statuses next_status
    λ s.
        check (not_before_created (find_order id s.database.orders) s.now)
          (text "chk_orders_last_status_at_not_before_created") s
    λ s. (
      ok tt,
      record s {
        database = record (s.database) {
          orders =
              update_order id
                (λ row. record row { status = status; last_status_at = s.now; updated_at = s.now })
                s.database.orders;
        };
      },
    )

  -- insertStatusHistoryQuery
  unfoldable pub insert_status_history_query :
      Text → Text → Text → Text → Text → Statement HistoryRow
  insert_status_history_query order_id next_status source comment metadata = do
    id ← cast_uuid pg order_id
    status ← cast_enum order_statuses next_status
    by ← cast_enum status_sources source
    json ← cast_json metadata
    check (not (is_blank_option (null_if_empty comment)))
        (text "chk_order_status_history_comment_not_blank")
    drawn ← draw_id pg
    λ s.
        let row : HistoryRow = record {
          id = drawn;
          order_id = id;
          status = status;
          source = by;
          comment = null_if_empty comment;
          metadata = json;
          created_at = s.now;
        } in
        (
          ok row,
          record s { database = record (s.database) { history = s.database.history ++ row ∷ [] } },
        )

  ping : TrackingRepository → Action Session Error (Unit {0})
  ping r =
      if r.has_db then wrapping passed_on (execute (pure tt)) else raise database_not_configured

  order_exists : Text → Action Session Error Bool
  order_exists order_id = wrapping passed_on (execute (order_exists_query order_id))

  -- An empty timeline of an order that does not exist is an error.
  timeline_or_missing :
      Text → List StatusHistoryItem → Action Session Error (List StatusHistoryItem)
  timeline_or_missing order_id (item ∷ items) = pure (item ∷ items)
  timeline_or_missing order_id [] = do
    exists ← order_exists order_id
    if exists then pure [] else raise order_not_found

  -- rows.Next, rows.Scan and rows.Err: the rows, or the error that ends the reading.
  read_rows : List HistoryRow → Statement (List StatusHistoryItem)
  read_rows rows = pure (map scan_status_history_item rows)

  read_timeline : Text → ℤ → Action Session Error (List StatusHistoryItem)
  read_timeline order_id limit = do
    rows ← wrapping passed_on (execute (timeline_query order_id limit))
    items ← wrapping passed_on (execute (read_rows rows))
    timeline_or_missing order_id items

  unfoldable pub get_order_timeline :
      TrackingRepository → Text → ℤ → Action Session Error (List StatusHistoryItem)
  unfolding timeline_query order_exists_query order_exists timeline_or_missing read_rows
      read_timeline
  get_order_timeline r order_id limit =
      if r.has_db then read_timeline order_id limit else raise database_not_configured

  -- What stands between BeginTx and Commit.
  unfoldable pub change_status :
      Text → Text → Text → Text → Text → Action Session Error StatusHistoryItem
  change_status order_id next_status source comment metadata = do
    current_status ← wrapping missing_order (execute (select_order_status_query order_id))
    lift (validate_status_transition current_status next_status)
    wrapping passed_on (execute (update_order_status_query order_id next_status))
    row ←
        wrapping passed_on
          (execute (insert_status_history_query order_id next_status source comment metadata))
    pure (scan_status_history_item row)

  unfoldable pub update_order_status :
      TrackingRepository → Text → Text → Text → Text → Text → Action Session Error StatusHistoryItem
  update_order_status r order_id next_status source comment metadata =
      if r.has_db
      then transaction passed_on passed_on
          (change_status order_id next_status source comment metadata)
      else raise database_not_configured

  -- `var _ service.Repository = (*TrackingRepository)(nil)`
  unfoldable pub repository : TrackingRepository → Repository Session
  unfolding ping get_order_timeline update_order_status
  repository r = record {
    ping = ping r;
    get_order_timeline = get_order_timeline r;
    update_order_status = update_order_status r;
  }
