-- ===== src/Carrier/Wiring.antt =====
-- services/carrier-sync-service/cmd/server/main.go and NewTrackingHTTPClient of
-- internal/client/tracking_http.go: how the service is put together from the environment. What makes
-- a transport of a timeout is a parameter, and so is what the worker waits with; SetCallTimeouts and
-- the interval bound the calls and the ticks, which the model does not time.
use trackflow.Prelude.{ℕ, ℤ, pos, Option, some, Result, ok, ◌>>=◌}
use trackflow.Text.{Text, text}
use trackflow.Environment.{Environment, get_env, get_duration_env}
use trackflow.Environment.Clients.{base_url, request_timeout}
use trackflow.Carrier.Backoff.{Retry}
use trackflow.Carrier.Client.{HttpClient, TrackingHttpClient, tracking_status_client}
use trackflow.Carrier.Mock.{Surroundings, build_carrier_client_from_env}
use trackflow.Carrier.Service.{SyncService, CarrierClient}
use trackflow.Carrier.Worker.{Context, Worker}
use trackflow.Carrier.Worker.Loop as Loop

abbrev pub default_tracking_service_url : Text
default_tracking_service_url = text "http://tracking-service:8083"

-- 5 seconds, in nanoseconds.
abbrev pub default_tracking_timeout : ℤ
default_tracking_timeout = pos 5_000_000_000

abbrev pub default_client_batch_size : ℤ
default_client_batch_size = pos 5

-- What net/http, encoding/json and time give to the client.
pub record Transport (S : Type 0) : Type 0 where
  pub parse_failure : Text → Option Text
  pub client_of : ℤ → HttpClient S
  pub rfc3339 : ℕ → Text
  pub status_text : ℕ → Text
  pub error_field : Text → Option Text

-- NewTrackingHTTPClient.
unfoldable pub new_tracking_http_client :
    {S : Type 0} → Transport S → Text → ℤ → Result Text (TrackingHttpClient S)
unfolding base_url request_timeout
new_tracking_http_client t raw timeout = do
  base ←
      base_url t.parse_failure (text "tracking service base url is required")
        (text "invalid tracking service base url") raw
  ok record {
    base_url = base;
    http = t.client_of (request_timeout default_tracking_timeout timeout);
    rfc3339 = t.rfc3339;
    status_text = t.status_text;
    error_field = t.error_field;
  }

abbrev service_of : {S : Type 0} → CarrierClient S → SyncService S
service_of client = record { client = some client }

-- The worker that main starts, or the error that ends main.
module _ {X : Type 0} (around : Surroundings X) (t : Transport (ℕ × X))
    (parse_duration : Text → Option ℤ) where
  unfoldable pub start :
      Environment → Retry (ℕ × X) → Context (ℕ × X) → Result Text (Worker (ℕ × X))
  unfolding build_carrier_client_from_env new_tracking_http_client get_env get_duration_env Loop.new
  start getenv retry context = do
    carrier_client ← build_carrier_client_from_env around getenv
    tracking_client ←
        new_tracking_http_client t
          (get_env getenv (text "TRACKING_SERVICE_URL") default_tracking_service_url)
          (get_duration_env parse_duration getenv (text "TRACKING_REQUEST_TIMEOUT")
            default_tracking_timeout)
    ok (
        Loop.new (service_of carrier_client) (tracking_status_client tracking_client)
          default_client_batch_size retry context)
