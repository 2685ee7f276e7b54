-- ===== src/Tests/Repository.antt =====
-- The repository, the transition check and the transactions at one order.
use trackflow.Prelude.{◌≡◌, [], ◌∷◌, some, ok, refl, arith, err, none, length, suc}
use trackflow.Text.{text, to_lower, text_eq, trim_space, contains}
use trackflow.Text.Uuid.{is_uuid}
use trackflow.Database.{
  cast_enum, find_order, update_order, cast_uuid, draw_id, execute, check, is_blank_option,
  not_before_created, is_blank, Session, unacknowledged,
}
use trackflow.Database.Transactions.{transaction}
use trackflow.Tracking.Model.{StatusHistoryItem}
use trackflow.Tracking.Status.{validate_status_transition, normalize_status}
use trackflow.Tracking.Status.Lifecycle.{Verdict, validate_status_transition-Verdict}
use trackflow.Tracking.Repository.{
  update_order_status, change_status, select_order_status_query, update_order_status_query,
  insert_status_history_query, cast_json, scan_status_history_item,
}
use trackflow.Tracking.Repository.Journal.{entry_of}
use trackflow.Tracking.Repository.Success.{update_order_status_succeeds}
use trackflow.Tests.Orders.{order_id, pg, order_in, assigned, repo}
use trackflow.Tracking.Error.{external}

-- The row that the move to in_transit returns.
abbrev item : StatusHistoryItem
item = record {
  id = 7 ∷ [];
  order_id = order_id;
  status = text "in_transit";
  source = text "courier";
  comment = some (text "on the way");
  metadata = [];
  created_at = 100;
}

moved_run :
    (update_order_status pg repo order_id
      (text "in_transit")
      (text "courier")
      (text "on the way")
      []
      assigned).0
    ≡ ok item
unfolding update_order_status text_eq trim_space normalize_status to_lower transaction execute
    change_status select_order_status_query update_order_status_query insert_status_history_query
    cast_enum cast_json cast_uuid draw_id find_order update_order validate_status_transition
    scan_status_history_item contains is_uuid check not_before_created is_blank is_blank_option
moved_run = refl

-- The fifth call, the commit, loses its acknowledgement: the update fails, and its row stands in the
-- history.
abbrev unheard : Session
unheard = record assigned {
  faults = none ∷ none ∷ none ∷ none ∷ some (unacknowledged (text "connection reset")) ∷ [];
}

unheard_run :
    let (result, after) =
      update_order_status pg repo order_id
        (text "in_transit")
        (text "courier")
        (text "on the way")
        []
        unheard in
    (result ≡ err (external (text "connection reset")))
    × (length after.database.history ≡ suc (length assigned.database.history))
unfolding update_order_status text_eq trim_space normalize_status to_lower transaction execute
    change_status select_order_status_query update_order_status_query insert_status_history_query
    cast_enum cast_json cast_uuid draw_id find_order update_order validate_status_transition
    scan_status_history_item contains is_uuid check not_before_created is_blank is_blank_option
unheard_run = (refl, refl)

validate_status_transition-Verdict_example :
    Verdict
      (text "Created ")
      (text "delivered")
      (validate_status_transition (text "Created ") (text "delivered"))
validate_status_transition-Verdict_example =
    validate_status_transition-Verdict (text "Created ") (text "delivered")

update_order_status_succeeds_example :
    (update_order_status pg repo order_id (text "in_transit") (text "courier") [] [] assigned).0
    ≡ ok (
        scan_status_history_item
          (entry_of pg 100 7 order_id (text "in_transit") (text "courier") [] []))
unfolding is_uuid to_lower find_order text_eq validate_status_transition normalize_status trim_space
    contains is_blank_option
update_order_status_succeeds_example =
    update_order_status_succeeds pg order_id (text "in_transit") (text "courier") [] order_id
      (order_in (text "assigned")) assigned repo refl refl refl refl refl refl refl (omega arith)
      refl
