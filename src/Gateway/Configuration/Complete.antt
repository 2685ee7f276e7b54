-- ===== src/Gateway/Configuration/Complete.antt =====
-- The proxy of the gateway under any environment.
use trackflow.Prelude.{
  ◌≡◌, ℤ, pos, ltbℤ, true, Option, none, some, Bool-cases, inl, inr, refl, if◌then◌else◌,
}
use trackflow.Text.{Text, trim_space, is_empty}
use trackflow.Environment.{Environment}
use trackflow.Environment.Defaults.{get_duration_env-positive}
use trackflow.Gateway.Upstream.{Url}
use trackflow.Gateway.Proxy.{Client, GatewayProxy, default_upstream_timeout}
use trackflow.Gateway.Configuration.{
  ParsedUrl, is_absolute, parse_service_url, new_gateway_proxy, default_order_service_url,
  default_tracking_service_url, upstream_timeout_env_key, order_service_url_env_key,
  tracking_service_url_env_key, absolute_or, fallback_url,
}

-- An address that url.Parse has read with a scheme and a host.
pub record IsAddress (parse : Text → Option ParsedUrl) (base : Option Url) : Type 0 where
  pub source : Text
  pub parsed : ParsedUrl
  pub read : parse source ≡ some parsed
  pub absolute : is_absolute parsed ≡ true
  pub given : base ≡ some parsed.url

-- A proxy that can send: a client of its timeout, which is positive, and two addresses.
pub record IsComplete {S : Type 0} (parse : Text → Option ParsedUrl) (client_of : ℤ → Client S)
    (p : GatewayProxy S) : Type 0 where
  pub sends : p.client ≡ some (client_of p.timeout)
  pub patient : ltbℤ (pos 0) p.timeout ≡ true
  pub to_orders : IsAddress parse p.order_base
  pub to_tracking : IsAddress parse p.tracking_base

module _ (parse : Text → Option ParsedUrl) where
  -- A default that url.Parse reads.
  abbrev pub IsReadable : Text → Type 0
  IsReadable fallback =
      (parsed : ParsedUrl) × (parse fallback ≡ some parsed) × (is_absolute parsed ≡ true)

  fallback_url-IsAddress :
      (fallback : Text) → IsReadable fallback → IsAddress parse (fallback_url parse fallback)
  unfolding fallback_url
  fallback_url-IsAddress fallback (parsed, read, absolute) = record {
    source = fallback;
    parsed = parsed;
    read = read;
    absolute = absolute;
    given = rw (read, fallback_url) refl;
  }

  absolute_or-IsAddress :
      (fallback source : Text) (read : Option ParsedUrl)
      → IsReadable fallback
      → parse source ≡ read
      → IsAddress parse (absolute_or parse fallback read)
  unfolding absolute_or
  absolute_or-IsAddress fallback source none readable h = fallback_url-IsAddress fallback readable
  absolute_or-IsAddress fallback source (some parsed) readable h =
      elim (Bool-cases (is_absolute parsed)) [
        | inl whole ↦
            rw whole
              record { source = source; parsed = parsed; read = h; absolute = whole; given = refl }
        | inr part ↦ rw part (fallback_url-IsAddress fallback readable)
      ]

  parse_service_url-IsAddress :
      (value fallback : Text)
      → IsReadable fallback
      → IsAddress parse (parse_service_url parse value fallback)
  unfolding parse_service_url
  parse_service_url-IsAddress value fallback readable =
      absolute_or-IsAddress fallback
        (if is_empty (trim_space value) then fallback else trim_space value) _ readable refl

  -- Whatever the environment holds, the proxy is complete: it has a client with a positive timeout,
  -- and both of its addresses have a scheme and a host, as long as the two defaults do.
  pub new_gateway_proxy-IsComplete :
      {S : Type 0} (parse_duration : Text → Option ℤ) (client_of : ℤ → Client S)
      (getenv : Environment)
      → IsReadable default_order_service_url
      → IsReadable default_tracking_service_url
      → IsComplete parse client_of (new_gateway_proxy parse parse_duration client_of getenv)
  unfolding new_gateway_proxy
  new_gateway_proxy-IsComplete parse_duration client_of getenv orders tracking = record {
    sends = refl;
    patient =
        get_duration_env-positive parse_duration getenv upstream_timeout_env_key
          default_upstream_timeout refl;
    to_orders =
        parse_service_url-IsAddress (getenv order_service_url_env_key) default_order_service_url
          orders;
    to_tracking =
        parse_service_url-IsAddress (getenv tracking_service_url_env_key)
          default_tracking_service_url tracking;
  }
