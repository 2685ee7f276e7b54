-- ===== src/Tracking/Repository/Success.antt =====
-- When UpdateOrderStatus of tracking_repository.go does succeed.
use trackflow.Prelude.{◌≡◌, ◌≤◌, false, [], some, ok, arith, true, ◌∙◌}
use trackflow.Text.{Text, contains}
use trackflow.Database.{
  cast_enum, order_statuses, status_sources, Postgres, OrderRow, Session, execute, behind,
  find_order, cast_uuid, draw_id, check, not_before_created, is_blank_option, null_if_empty,
}
use trackflow.Database.Transactions.{transaction_calm}
use trackflow.Tracking.Model.{StatusHistoryItem}
use trackflow.Tracking.Status.{validate_status_transition}
use trackflow.Tracking.Repository.{
  TrackingRepository, change_status, select_order_status_query, update_order_status_query,
  insert_status_history_query, cast_json, update_order_status, scan_status_history_item,
}
use trackflow.Tracking.Repository.Journal.{entry_of}

module _ (pg : Postgres) (order_id next source comment id : Text) (row : OrderRow) (s : Session)
    (calm : s.faults ≡ []) (parsed : pg.parse_uuid order_id ≡ some id)
    (found : find_order id s.database.orders ≡ some row)
    (legal : validate_status_transition row.status next ≡ ok tt)
    (status_known : contains order_statuses next ≡ true)
    (source_known : contains status_sources source ≡ true) (later : row.created_at ≤ s.now)
    (worded : is_blank_option (null_if_empty comment) ≡ false) where
  abbrev item : StatusHistoryItem
  item = scan_status_history_item (entry_of pg s.now s.drawn id next source comment [])

  change_status_done :
      ((change_status pg order_id next source comment [] s).0 ≡ ok item)
      × ((change_status pg order_id next source comment [] s).1.faults ≡ [])
  unfolding change_status execute behind select_order_status_query update_order_status_query
      insert_status_history_query cast_enum cast_json cast_uuid draw_id check not_before_created
  change_status_done = (ground arith, ground arith)

-- Where the database is there and no call meets a fault, an update of an order that exists, along
-- the life cycle, not before its creation, with a known status and source, without metadata and with
-- no comment or one that is not blank, succeeds, and returns the new history row.
pub update_order_status_succeeds :
    (pg : Postgres) (order_id next source comment id : Text) (row : OrderRow) (s : Session)
    (r : TrackingRepository)
    → r.has_db ≡ true
    → s.faults ≡ []
    → pg.parse_uuid order_id ≡ some id
    → find_order id s.database.orders ≡ some row
    → validate_status_transition row.status next ≡ ok tt
    → contains order_statuses next ≡ true
    → contains status_sources source ≡ true
    → row.created_at ≤ s.now
    → is_blank_option (null_if_empty comment) ≡ false
    → (update_order_status pg r order_id next source comment [] s).0
      ≡ ok (scan_status_history_item (entry_of pg s.now s.drawn id next source comment []))
unfolding update_order_status behind
update_order_status_succeeds pg order_id next source comment id row s r up calm parsed found legal
      status_known source_known later worded =
    let still : (behind s).faults ≡ [] = rw calm in
    let (went, quiet) =
      change_status_done pg order_id next source comment id row (behind s) still parsed found legal
        status_known source_known later worded in
    rw up
      (transaction_calm _ _ (change_status pg order_id next source comment []) s calm quiet ∙ went)
