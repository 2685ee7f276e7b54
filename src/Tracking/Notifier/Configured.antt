-- ===== src/Tracking/Notifier/Configured.antt =====
-- NewHTTPClient of services/tracking-service/internal/notification/http_client.go, and what
-- cmd/server/main.go gives it. What makes a transport of a timeout is a parameter.
use trackflow.Prelude.{ℤ, pos, Option, Result, ok, ◌>>=◌, []}
use trackflow.Text.{Text, text}
use trackflow.Environment.{Environment, get_env, get_duration_env}
use trackflow.Environment.Clients.{base_url, request_timeout}
use trackflow.Tracking.Service.{Notifier}
use trackflow.Tracking.Notifier.{Formats, Transport, new_recipients, http_notifier}

-- 3 seconds, in nanoseconds.
abbrev pub default_request_timeout : ℤ
default_request_timeout = pos 3_000_000_000

module _ {S : Type 0} (f : Formats) (parse_failure : Text → Option Text)
    (transport_of : ℤ → Transport S) where
  unfoldable pub new_http_client :
      (raw : Text) (timeout : ℤ) (email telegram : Text) → Result Text (Notifier S)
  unfolding base_url request_timeout new_recipients http_notifier
  new_http_client raw timeout email telegram = do
    base ←
        base_url parse_failure (text "notification service base url is required")
          (text "invalid notification service base url") raw
    ok (
        http_notifier f base (transport_of (request_timeout default_request_timeout timeout))
          (new_recipients email telegram))

  unfoldable pub notifier_from_env : (Text → Option ℤ) → Environment → Result Text (Notifier S)
  unfolding new_http_client get_env get_duration_env
  notifier_from_env parse_duration getenv =
      new_http_client
        (get_env getenv (text "NOTIFICATION_SERVICE_URL") (text "http://notification-service:8085"))
        (get_duration_env parse_duration getenv (text "NOTIFICATION_REQUEST_TIMEOUT")
          default_request_timeout)
        (get_env getenv (text "NOTIFICATION_EMAIL_RECIPIENT") [])
        (get_env getenv (text "NOTIFICATION_TELEGRAM_RECIPIENT") [])
