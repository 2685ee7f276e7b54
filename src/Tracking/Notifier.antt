-- ===== src/Tracking/Notifier.antt =====
-- services/tracking-service/internal/notification/http_client.go. The transport, the JSON of an
-- error response, the calendar and the table of status texts are parameters; a response carries
-- its body as far as it is read.
pub mod Requests
pub mod Configured
use trackflow.Prelude.{
  ℕ, Bool, ◌||◌, ◌&&◌, true, false, List, [], ◌∷◌, ◌++◌, Option, none, some, Result, ok, err,
  if◌then◌else◌, leb, ltb,
}
use trackflow.Prelude.Action.{Action, raise}
use trackflow.Text.{Text, text, trim_space, is_empty}
use trackflow.Text.Number.{decimal}
use trackflow.Tracking.Error.{Error, external}
use trackflow.Tracking.Model.{StatusHistoryItem}
use trackflow.Tracking.Service.{Notifier}

pub record SendNotificationRequest : Type 0 where
  pub order_id : Text
  pub status : Text
  pub channel : Text
  pub recipient : Text
  pub message : Text

pub record NotificationResponse : Type 0 where
  pub status_code : ℕ
  pub body : Text

-- http.NewRequest, which reads the address, and http.Client.Do.
pub record Transport (S : Type 0) : Type 0 where
  pub readable : Text → Option Text
  pub deliver : Text → SendNotificationRequest → Action S Text NotificationResponse

-- UTC().Format(time.RFC3339), http.StatusText, and the field `error` of a JSON body.
pub record Formats : Type 0 where
  pub rfc3339 : ℕ → Text
  pub status_text : ℕ → Text
  pub error_field : Text → Option Text

pub record Recipients : Type 0 where
  pub email_recipient : Text
  pub telegram_recipient : Text

or_default : Text → Text → Text
or_default fallback value =
    let trimmed = trim_space value in if is_empty trimmed then fallback else trimmed

-- The recipients of NewHTTPClient.
unfoldable pub new_recipients : Text → Text → Recipients
unfolding or_default
new_recipients email telegram = record {
  email_recipient = or_default (text "user@example.com") email;
  telegram_recipient = or_default (text "@trackflow_user") telegram;
}

pub build_notification_message : Formats → StatusHistoryItem → Text
build_notification_message f item =
    text "Order "
    ++ (item.order_id
        ++ (text " status changed to "
            ++ (item.status ++ (text " at " ++ f.rfc3339 item.created_at))))

abbrev pub request_for : Formats → StatusHistoryItem → Text → Text → SendNotificationRequest
request_for f item channel recipient = record {
  order_id = trim_space item.order_id;
  status = trim_space item.status;
  channel = channel;
  recipient = recipient;
  message = build_notification_message f item;
}

-- One request for each channel.
pub requests_of : Formats → Recipients → StatusHistoryItem → List SendNotificationRequest
requests_of f to item =
    request_for f item (text "email") to.email_recipient
    ∷ request_for f item (text "telegram") to.telegram_recipient
    ∷ []

module _ (f : Formats) where
  extract_notification_error : Text → Text
  extract_notification_error raw_body = elim (f.error_field raw_body) [
    | none ↦ []
    | some message ↦ trim_space message
  ]

  refused_message : NotificationResponse → Text
  unfolding extract_notification_error
  refused_message res =
      let message = extract_notification_error res.body in
      let body = trim_space res.body in
      if is_empty message
      then (if is_empty body then f.status_text res.status_code else body)
      else message

  refused : NotificationResponse → Text
  unfolding refused_message
  refused res =
      text "notification service returned status "
      ++ (decimal res.status_code ++ (text ": " ++ refused_message res))

  judged : NotificationResponse → Result Text (Unit {0})
  unfolding refused
  judged res =
      if leb 200 res.status_code && ltb res.status_code 300 then ok tt else err (refused res)

-- strings.Join(errs, "; ").
joined : List Text → Text
joined [] = []
joined (e ∷ []) = e
joined (e ∷ d ∷ errors) = e ++ (text "; " ++ joined (d ∷ errors))

-- The errors of the channels, with that of one more.
pub gathered : Text → Result Text (Unit {0}) → List Text → List Text
gathered channel (ok _) errors = errors
gathered channel (err e) errors = (channel ++ (text ": " ++ e)) ∷ errors

-- The result of a dispatch.
pub summed_up : List Text → Result Error (Unit {0})
unfolding joined
summed_up [] = ok tt
summed_up (e ∷ errors) =
    err (external (text "notification dispatch failed: " ++ joined (e ∷ errors)))

module _ {S : Type 0} (f : Formats) (base_url : Text) (http : Transport S) where
  answered : Result Text NotificationResponse × S → Result Text (Unit {0}) × S
  unfolding judged
  answered (ok res, st) = (judged f res, st)
  answered (err e, st) = (err (text "send notification request: " ++ e), st)

  post : Text → Option Text → SendNotificationRequest → Action S Text (Unit {0})
  unfolding answered
  post endpoint (some e) req st = (err (text "build notification request: " ++ e), st)
  post endpoint none req st = answered (http.deliver endpoint req st)

  pub send_request : SendNotificationRequest → Action S Text (Unit {0})
  unfolding post
  send_request req =
      let endpoint = base_url ++ text "/internal/notifications/send" in
      post endpoint (http.readable endpoint) req

  -- The loop over the channels, with the errors that it gathers.
  pub send_all : List SendNotificationRequest → S → List Text × S
  unfolding send_request gathered
  send_all [] st = ([], st)
  send_all (req ∷ requests) st =
      let (r, sent) = send_request req st in
      let (errors, after) = send_all requests sent in (gathered req.channel r errors, after)

  pub dispatched : List Text × S → Result Error (Unit {0}) × S
  unfolding summed_up
  dispatched (errors, st) = (summed_up errors, st)

  unfoldable pub notify_status_changed : Recipients → StatusHistoryItem → Action S Error (Unit {0})
  unfolding requests_of send_all dispatched
  notify_status_changed to item st =
      if is_empty (trim_space item.order_id) || is_empty (trim_space item.status)
      then (err (external (text "order_id and status are required")), st)
      else dispatched (send_all (requests_of f to item) st)

  -- The client as main.go gives it to the service.
  unfoldable pub http_notifier : Recipients → Notifier S
  unfolding notify_status_changed
  http_notifier to = record { notify_status_changed = notify_status_changed to }
