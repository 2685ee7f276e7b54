-- ===== src/Tests/System.antt =====
-- Both services on one database.
use trackflow.Prelude.{
  ◌≡◌, ℕ, [], ◌∷◌, List, none, ok, refl, pos, false, ◌≤◌, ◌+◌, length, float_neg, float_one,
  float_pos,
}
use trackflow.Text.{text, to_lower, text_eq, trim_space, contains}
use trackflow.Database.{find_order, execute, behind, cast_uuid, cast_enum, draw_id, update_order}
use trackflow.Tracking.Repository.{history_of}
use trackflow.Tracking.Repository.Lifetime.{StandsAt}
use trackflow.Tracking.Status.Lifecycle.{Status, ◌⟶*◌, stage}
use trackflow.Order.Model.{CreateOrderInput, Order}
use trackflow.Order.Service.{cache_order, create_order, checked_key}
use trackflow.Order.Statements.{
  find_key, cast_numeric, unique, insert_address_query, insert_order_query, within,
}
use trackflow.Database.{check, is_blank}
use trackflow.System.Journal.{told}
use trackflow.Database.Transactions.{transaction}
use trackflow.Order.Repository as OrderTables
use trackflow.Order.Statements.{get_order_by_idempotency_key_query}
use trackflow.System.{Call, create, assign, update, wait, perform_all, perform}
use trackflow.System.Lifetime.{perform_all-StandsAt}
use trackflow.System.Journal.{IsJournalled, perform_all-IsJournalled}
use trackflow.System.Keys.{IsSound, perform_all-IsSound}
use trackflow.System.Requests.{World, service, create_order_again, contended, overtaken, on_session}
use trackflow.Tests.Orders.{order_id, order_in, repo}
use trackflow.Tests.Order.{server, orders, order_input, waiting}
use trackflow.Order.Validation.{
  normalize_create_input, checked_uuid, validate_address, normalize_address_input, out_of_range,
  is_service_level, service_level_of,
}
use trackflow.Text.Uuid.{is_uuid}
use trackflow.Order.Repository.{create_statements, scan_order, repository}

-- An input as the service hands it to its repository.
abbrev normalized : CreateOrderInput
normalized = record order_input { service_level = text "standard" }

-- A second order with the key of the first, an assignment, and updates of which one is illegal.
abbrev calls : List Call
calls =
    create normalized (text "k")
    ∷ assign order_id (record { courier_id = text "c7"; assigned_by = []; comment = [] })
    ∷ update order_id (text "created") (text "courier") [] []
    ∷ wait 200 []
    ∷ update order_id (text "in_transit") (text "courier") [] []
    ∷ []

waiting_at : StandsAt order_id waiting.database Status.created
unfolding find_order text_eq
waiting_at = (order_in (text "created"), refl, refl)

perform_all-StandsAt_example :
    let after = (perform_all server orders repo calls waiting).database in
    (b : Status) × StandsAt order_id after b
    × (Status.created ⟶* b)
    × (length (history_of order_id waiting.database.history)
        ≤ length (history_of order_id after.history))
    × (length (history_of order_id after.history) + stage Status.created
        ≤ length (history_of order_id waiting.database.history) + stage b)
perform_all-StandsAt_example =
    perform_all-StandsAt server orders repo calls waiting order_id Status.created waiting_at

waiting-IsJournalled : IsJournalled order_id waiting.database
unfolding find_order text_eq told history_of
waiting-IsJournalled = (order_in (text "created"), refl, refl)

perform_all-IsJournalled_example :
    IsJournalled order_id (perform_all server orders repo calls waiting).database
perform_all-IsJournalled_example =
    perform_all-IsJournalled server orders repo calls waiting order_id waiting-IsJournalled

waiting-IsSound : IsSound waiting.database
unfolding find_key
waiting-IsSound = record { keyed = (refl, tt); assigned_once = tt }

perform_all-IsSound_example : IsSound (perform_all server orders repo calls waiting).database
perform_all-IsSound_example = perform_all-IsSound server orders repo calls waiting waiting-IsSound

-- Another instance creates an order of the key between the lookup and the insert of the first
-- request.
abbrev world : World ℕ
world = record {
  rivals = [] ∷ (create normalized (text "k2") ∷ []) ∷ [];
  session = waiting;
  cache = 0;
}

abbrev later : World ℕ
later = record {
  rivals = [];
  session =
      perform_all server orders repo (wait 200 [] ∷ [])
        (create_order (service server orders repo none (pos 0)) order_input (text "k2 ")
          world).1.session;
  cache = 3;
}

-- The order of the other instance.
abbrev order : Order
order = record {
  id = 9 ∷ [];
  customer_id = order_id;
  status = text "created";
  created_at = 100;
  updated_at = 100;
}

key_checked : checked_key (text "k2 ") ≡ ok (text "k2")
unfolding checked_key trim_space
key_checked = refl

key_checked_again : checked_key (text "k2") ≡ ok (text "k2")
unfolding checked_key trim_space
key_checked_again = refl

first_run :
    (create_order (service server orders repo none (pos 0)) order_input (text "k2 ") world).0
    ≡ ok (order, false)
unfolding create_order service checked_key trim_space normalize_create_input checked_uuid is_uuid
    validate_address normalize_address_input out_of_range float_neg float_one float_pos
    is_service_level text_eq service_level_of to_lower contended transaction execute behind
    cast_uuid cast_enum draw_id find_order update_order OrderTables.get_order_by_idempotency_key
    create_statements scan_order cast_numeric check unique find_key
    get_order_by_idempotency_key_query insert_address_query insert_order_query is_blank within
    overtaken on_session perform perform_all OrderTables.create_order
    OrderTables.idempotency_failure OrderTables.is_idempotency_conflict contains repository
    cache_order
first_run = refl

second_run :
    (create_order (service server orders repo none (pos 0)) order_input (text "k2") later).0
    ≡ ok (order, false)
unfolding create_order service checked_key trim_space normalize_create_input checked_uuid is_uuid
    validate_address normalize_address_input out_of_range float_neg float_one float_pos
    is_service_level text_eq service_level_of to_lower contended transaction execute behind
    cast_uuid cast_enum draw_id find_order update_order OrderTables.get_order_by_idempotency_key
    create_statements scan_order cast_numeric check unique find_key
    get_order_by_idempotency_key_query insert_address_query insert_order_query is_blank within
    overtaken on_session perform perform_all OrderTables.create_order
    OrderTables.idempotency_failure OrderTables.is_idempotency_conflict contains repository
    cache_order
second_run = refl

create_order_again_example : (order.id ≡ order.id) × (false ≡ false)
create_order_again_example =
    create_order_again server orders repo none none (pos 0) (pos 0) order_input order_input
      (text "k2 ") (text "k2") (text "k2") (wait 200 [] ∷ []) world later key_checked
      key_checked_again first_run refl second_run
