-- ===== src/Tracking/Notifier/Requests.antt =====
-- The requests of the notifier, and what services/notification-service makes of them.
use trackflow.Prelude.{◌≡◌, false, [], Result, ok, err, refl, All, Bool-cases, inl, inr, ◌↔◌}
use trackflow.Text.{Text, text, trim_space, is_space, is_empty, to_lower, text_eq}
use trackflow.Text.Laws.{trim_space-trim_space, trim_space_visible}
use trackflow.Notification.Event.{Event, checked_event, normalize_channel}
use trackflow.Tracking.Model.{StatusHistoryItem}
use trackflow.Tracking.Notifier.{
  SendNotificationRequest, Formats, Recipients, Transport, or_default, new_recipients,
  build_notification_message, request_for, requests_of, send_request, gathered, summed_up,
  notify_status_changed,
}

-- What the notification service decodes of a request.
abbrev pub event_of : SendNotificationRequest → Event
event_of req = record {
  order_id = req.order_id;
  status = req.status;
  channel = req.channel;
  recipient = req.recipient;
  message = req.message;
  created_at = 0;
}

checked_email : normalize_channel (text "email") ≡ ok (text "email")
unfolding normalize_channel trim_space to_lower text_eq
checked_email = refl

checked_telegram : normalize_channel (text "telegram") ≡ ok (text "telegram")
unfolding normalize_channel trim_space to_lower text_eq
checked_telegram = refl

visible_channel :
    (is_empty (trim_space (text "email")) ≡ false)
    × (is_empty (trim_space (text "telegram")) ≡ false)
unfolding trim_space
visible_channel = (refl, refl)

trimmed_visible :
    (s : Text) → is_empty (trim_space s) ≡ false → is_empty (trim_space (trim_space s)) ≡ false
trimmed_visible s h = rw (trim_space-trim_space s) h

visible_recipients :
    (is_empty (trim_space (text "user@example.com")) ≡ false)
    × (is_empty (trim_space (text "@trackflow_user")) ≡ false)
unfolding trim_space
visible_recipients = (refl, refl)

or_default_visible :
    (fallback value : Text)
    → is_empty (trim_space fallback) ≡ false
    → is_empty (trim_space (or_default fallback value)) ≡ false
unfolding or_default
or_default_visible fallback value h = elim (Bool-cases (is_empty (trim_space value))) [
  | inl blank ↦ rw blank h
  | inr given ↦ rw given (trimmed_visible value given)
]

message_visible :
    (f : Formats) (item : StatusHistoryItem)
    → is_empty (trim_space (build_notification_message f item)) ≡ false
unfolding build_notification_message is_space
message_visible f item = trim_space_visible _ _ refl

checked_event-visible :
    (event : Event)
    → is_empty (trim_space event.order_id) ≡ false
    → is_empty (trim_space event.status) ≡ false
    → is_empty (trim_space event.channel) ≡ false
    → normalize_channel event.channel ≡ ok event.channel
    → is_empty (trim_space event.recipient) ≡ false
    → is_empty (trim_space event.message) ≡ false
    → checked_event event ≡ ok event
unfolding checked_event
checked_event-visible event o s c n r m = rw (o, s, c, n, r, m)

-- Whatever recipients are configured, the two requests about an item whose order id and status are
-- not blank pass every check of the notification service, which takes them as they stand.
pub requests_of-accepted :
    (f : Formats) (email telegram : Text) (item : StatusHistoryItem)
    → is_empty (trim_space item.order_id) ≡ false
    → is_empty (trim_space item.status) ≡ false
    → All
        (λ req. checked_event (event_of req) ≡ ok (event_of req))
        (requests_of f (new_recipients email telegram) item)
unfolding requests_of new_recipients
requests_of-accepted f email telegram item o s =
    let order = trimmed_visible item.order_id o in
    let status = trimmed_visible item.status s in
    let message = message_visible f item in
    (
      checked_event-visible _ order status visible_channel.0 checked_email
          (or_default_visible _ email visible_recipients.0) message,
      (
        checked_event-visible _ order status visible_channel.1 checked_telegram
            (or_default_visible _ telegram visible_recipients.1) message,
        tt,
      ),
    )

summed_up_iff :
    (c d : Text) (a b : Result Text (Unit {0}))
    → (summed_up (gathered c a (gathered d b [])) ≡ ok tt) ↔ ((a ≡ ok tt) × (b ≡ ok tt))
unfolding summed_up gathered
summed_up_iff c d (ok x) (ok y) = (λ h. (refl, refl), λ h. refl)
summed_up_iff c d (ok x) (err e) = (λ h. cc, λ h. cc)
summed_up_iff c d (err e) (ok y) = (λ h. cc, λ h. cc)
summed_up_iff c d (err e) (err e') = (λ h. cc, λ h. cc)

module _ {S : Type 0} (f : Formats) (base_url : Text) (http : Transport S) where
  -- For an item whose order id and status are not blank, both requests are made, the second from
  -- the state that the first leaves whatever the first answers, and the notification succeeds
  -- exactly if both do.
  pub notify_status_changed_lem :
      (to : Recipients) (item : StatusHistoryItem) (st : S)
      → is_empty (trim_space item.order_id) ≡ false
      → is_empty (trim_space item.status) ≡ false
      → let first =
          send_request f base_url http (request_for f item (text "email") to.email_recipient) st in
        let second =
          send_request f base_url http
            (request_for f item (text "telegram") to.telegram_recipient)
            first.1 in
        let result = notify_status_changed f base_url http to item st in
        (result.1 ≡ second.1) × ((result.0 ≡ ok tt) ↔ ((first.0 ≡ ok tt) × (second.0 ≡ ok tt)))
  unfolding notify_status_changed
  notify_status_changed_lem to item st o s =
      rw (o, s) (refl, summed_up_iff (text "email") (text "telegram") _ _)
