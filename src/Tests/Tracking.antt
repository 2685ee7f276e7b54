-- ===== src/Tests/Tracking.antt =====
-- services/tracking-service at one order, which is assigned.
use trackflow.Prelude.{◌≡◌, some, pos, refl, length}
use trackflow.Text.{to_lower, text_eq, trim_space, contains}
use trackflow.Text.Uuid.{is_uuid}
use trackflow.Database.{
  cast_enum, find_order, update_order, cast_uuid, draw_id, execute, check, not_before_created,
  is_blank, is_blank_option,
}
use trackflow.Database.Transactions.{transaction}
use trackflow.Tracking.Status.{
  validate_status_transition, normalize_status, normalize_status_source,
}
use trackflow.Tracking.Service.{
  checked_id, checked_status, checked_source, publish, update_order_status, get_order_timeline,
}
use trackflow.Tracking.Service.Update.{Attempt, update_order_status-Attempt}
use trackflow.Tracking.Service.Timeline.{Reading, get_order_timeline-Reading}
use trackflow.Tracking.Repository.{
  change_status, select_order_status_query, update_order_status_query, insert_status_history_query,
  cast_json, scan_status_history_item, repository,
}
use trackflow.Tracking.Handler.{handle_update_order_status}
use trackflow.Tracking.Cache.{timeline_cache, order_cache_invalidator}
use trackflow.Tracking.Wiring.{wire, repository_on}
use trackflow.Tracking.Wiring.Endpoint.{Answered, handle_update_order_status-Answered}
use trackflow.Tests.Orders.{
  order_id, pg, assigned, repo, redis, json, notifier, input, request, service,
}

-- The request moves the order, and both caches and the notifier are called.
request_run :
    let (response, (after, calls)) =
      handle_update_order_status (some service) request (assigned, 0) in
    (response.status ≡ 200) × (calls ≡ 3) × (length after.database.history ≡ 1)
unfolding handle_update_order_status wire text_eq trim_space update_order_status checked_id is_uuid
    checked_status normalize_status to_lower checked_source normalize_status_source repository
    transaction execute change_status select_order_status_query update_order_status_query
    insert_status_history_query cast_enum cast_json cast_uuid draw_id find_order update_order
    validate_status_transition publish timeline_cache order_cache_invalidator
    scan_status_history_item contains check not_before_created is_blank is_blank_option
request_run = (refl, refl, refl)

handle_update_order_status-Answered_example :
    let (response, (after, rest)) =
      handle_update_order_status (some service) request (assigned, 0) in
    Answered pg request assigned response after.database
handle_update_order_status-Answered_example =
    handle_update_order_status-Answered pg repo notifier json (pos 5) (some redis) request assigned
      0

update_order_status-Attempt_example :
    Attempt service
      (repository_on (repository pg repo))
      order_id
      input
      (assigned, 0)
      (update_order_status service order_id input (assigned, 0))
unfolding wire
update_order_status-Attempt_example =
    update_order_status-Attempt service (repository_on (repository pg repo)) order_id input
      (assigned, 0) refl

get_order_timeline-Reading_example :
    Reading service
      (repository_on (repository pg repo))
      order_id
      (pos 0)
      (assigned, 0)
      (get_order_timeline service order_id (pos 0) (assigned, 0))
unfolding wire
get_order_timeline-Reading_example =
    get_order_timeline-Reading service (repository_on (repository pg repo)) order_id (pos 0)
      (assigned, 0) refl
