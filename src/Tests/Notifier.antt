-- ===== src/Tests/Notifier.antt =====
-- The notifier of services/tracking-service at one history item.
use trackflow.Prelude.{◌≡◌, ◌↔◌, ℕ, zero, suc, [], none, ok, err, refl, All, false}
use trackflow.Text.{text, trim_space, is_empty}
use trackflow.Notification.Event.{checked_event}
use trackflow.Tracking.Model.{StatusHistoryItem}
use trackflow.Tracking.Notifier.{
  Transport, Formats, new_recipients, requests_of, request_for, send_request, notify_status_changed,
}
use trackflow.Tracking.Notifier.Requests.{event_of, requests_of-accepted, notify_status_changed_lem}

abbrev item : StatusHistoryItem
item = record {
  id = text "h-1";
  order_id = text "o-1";
  status = text "delivered";
  source = text "courier";
  comment = none;
  metadata = [];
  created_at = 5;
}

abbrev formats : Formats
formats = record {
  rfc3339 = λ at. text "2026-01-01T00:00:00Z";
  status_text = λ code. text "status";
  error_field = λ body. none;
}

-- The state counts the requests, and the first one is lost.
abbrev transport : Transport ℕ
transport = record {
  readable = λ url. none;
  deliver = λ url req n. elim n [
    | zero ↦ (err (text "timeout"), 1)
    | suc m ↦ (ok record { status_code = 200; body = [] }, suc (suc m))
  ];
}

given : (is_empty (trim_space item.order_id) ≡ false) × (is_empty (trim_space item.status) ≡ false)
unfolding trim_space
given = (refl, refl)

requests_of-accepted_example :
    All
      (λ req. checked_event (event_of req) ≡ ok (event_of req))
      (requests_of formats (new_recipients [] (text " @ann ")) item)
requests_of-accepted_example = requests_of-accepted formats [] (text " @ann ") item given.0 given.1

notify_status_changed_lem_example :
    let to = new_recipients [] [] in
    let first =
      send_request formats
        (text "http://n")
        transport
        (request_for formats item (text "email") to.email_recipient)
        0 in
    let second =
      send_request formats
        (text "http://n")
        transport
        (request_for formats item (text "telegram") to.telegram_recipient)
        first.1 in
    let result = notify_status_changed formats (text "http://n") transport to item 0 in
    (result.1 ≡ second.1) × ((result.0 ≡ ok tt) ↔ ((first.0 ≡ ok tt) × (second.0 ≡ ok tt)))
notify_status_changed_lem_example =
    notify_status_changed_lem formats (text "http://n") transport (new_recipients [] []) item 0
      given.0 given.1
