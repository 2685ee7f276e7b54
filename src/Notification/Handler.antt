-- ===== src/Notification/Handler.antt =====
-- services/notification-service/internal/handler/handler.go
-- `first` and `next` are the answers of the two calls of json.Decoder.Decode.
use trackflow.Prelude.{ℕ, Bool, not, Option, none, some, Result, ok, err, if◌then◌else◌, ◌||◌}
use trackflow.Text.{Text, text, text_eq}
use trackflow.Notification.Event.{Event}
use trackflow.Notification.Service.{DedupState, NotificationService, health, send}

pub data Decoded (A : Type 0) : Type 0 where
  value : A → Decoded A
  eof : Decoded A
  malformed : Decoded A

pub record Request : Type 0 where
  pub method : Text
  pub first : Decoded Event
  pub next : Decoded (Unit {0})

pub record Response : Type 0 where
  pub status : ℕ
  pub message : Text

unfoldable pub is_validation_error : Text → Bool
is_validation_error message =
    text_eq message (text "order_id is required")
    || text_eq message (text "status is required")
    || text_eq message (text "channel is required")
    || text_eq message (text "channel must be one of: email, telegram")
    || text_eq message (text "recipient is required")
    || text_eq message (text "message is required")

-- A single JSON value.
decode_event : Request → Option Event
decode_event r = elim r.first [
  | value event ↦ elim r.next [ eof ↦ some event | value v ↦ none | malformed ↦ none ]
  | eof ↦ none
  | malformed ↦ none
]

unfoldable pub send_failure : Text → Response
send_failure message =
    if is_validation_error message
    then record { status = 400; message = message }
    else record { status = 500; message = text "failed to send notification" }

module _ {S : Type 0} where
  replied : Result Text (Unit {0}) × (DedupState × S) → Response × (DedupState × S)
  replied (ok _, st) = (record { status = 200; message = text "sent" }, st)
  replied (err e, st) = (send_failure e, st)

  unfoldable pub handle_send :
      Option (NotificationService S) → Request → DedupState × S → Response × (DedupState × S)
  unfolding decode_event replied
  handle_send svc r st =
      if not (text_eq r.method (text "POST"))
      then (record { status = 405; message = text "method not allowed" }, st)
      else elim svc [
        | none ↦ (record { status = 503; message = text "service unavailable" }, st)
        | some service ↦ elim (decode_event r) [
          | none ↦ (record { status = 400; message = text "invalid json payload" }, st)
          | some event ↦ replied (send service event st)
        ]
      ]

  unfoldable pub handle_health : Option (NotificationService S) → Request → Response
  handle_health svc r =
      if not (text_eq r.method (text "GET"))
      then record { status = 405; message = text "method not allowed" }
      else elim svc [
        | none ↦ record { status = 503; message = text "service unavailable" }
        | some service ↦ elim (health service) [
          | err e ↦ record { status = 503; message = text "sender unavailable" }
          | ok _ ↦ record { status = 200; message = text "ok" }
        ]
      ]
