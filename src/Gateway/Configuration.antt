-- ===== src/Gateway/Configuration.antt =====
-- NewGatewayProxy and parseServiceURL of services/api-gateway/internal/gateway/proxy.go. url.Parse
-- is a parameter, and so is what makes a client of a timeout.
pub mod Complete
use trackflow.Prelude.{ℤ, Bool, false, not, ◌&&◌, Option, none, some, if◌then◌else◌}
use trackflow.Text.{Text, text, trim_space, is_empty}
use trackflow.Environment.{Environment, get_duration_env}
use trackflow.Gateway.Upstream.{Url}
use trackflow.Gateway.Proxy.{Client, GatewayProxy, default_upstream_timeout}

abbrev pub order_service_url_env_key : Text
order_service_url_env_key = text "ORDER_SERVICE_URL"

abbrev pub tracking_service_url_env_key : Text
tracking_service_url_env_key = text "TRACKING_SERVICE_URL"

abbrev pub upstream_timeout_env_key : Text
upstream_timeout_env_key = text "UPSTREAM_REQUEST_TIMEOUT"

abbrev pub default_order_service_url : Text
default_order_service_url = text "http://order-service:8082"

abbrev pub default_tracking_service_url : Text
default_tracking_service_url = text "http://tracking-service:8083"

-- What url.Parse finds.
pub record ParsedUrl : Type 0 where
  pub scheme : Text
  pub host : Text
  pub url : Url

unfoldable pub is_absolute : ParsedUrl → Bool
is_absolute parsed = not (is_empty parsed.scheme) && not (is_empty parsed.host)

module _ (parse : Text → Option ParsedUrl) where
  -- The address that stands behind a fallback, unless even that cannot be read.
  fallback_url : Text → Option Url
  fallback_url fallback = elim (parse fallback) [ none ↦ none | some parsed ↦ some parsed.url ]

  absolute_or : Text → Option ParsedUrl → Option Url
  unfolding fallback_url
  absolute_or fallback none = fallback_url fallback
  absolute_or fallback (some parsed) =
      if is_absolute parsed then some parsed.url else fallback_url fallback

  unfoldable pub parse_service_url : (value fallback : Text) → Option Url
  unfolding absolute_or fallback_url is_absolute
  parse_service_url value fallback =
      let candidate = trim_space value in
      absolute_or fallback (parse (if is_empty candidate then fallback else candidate))

  unfoldable pub new_gateway_proxy :
      {S : Type 0} → (Text → Option ℤ) → (ℤ → Client S) → Environment → GatewayProxy S
  unfolding parse_service_url get_duration_env
  new_gateway_proxy parse_duration client_of getenv =
      let timeout =
        get_duration_env parse_duration getenv upstream_timeout_env_key default_upstream_timeout in
      record {
        client = some (client_of timeout);
        timeout = timeout;
        order_base = parse_service_url (getenv order_service_url_env_key) default_order_service_url;
        tracking_base =
            parse_service_url (getenv tracking_service_url_env_key) default_tracking_service_url;
      }
