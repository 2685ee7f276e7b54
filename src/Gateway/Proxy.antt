-- ===== src/Gateway/Proxy.antt =====
-- services/api-gateway/internal/gateway: proxy.go, with adapter.go and the handlers of router.go.
-- The HTTP client is a parameter, and so is what it makes of its deadlines. `S` is the state behind
-- it.
pub mod Forwarding
pub mod Updates
pub mod Identity
pub mod Sending
use trackflow.Prelude.{
  ℕ, ℤ, pos, lebℤ, leb, Bool, true, false, not, ◌||◌, ◌&&◌, [], ◌∷◌, List, Option, none, some,
  Result, ok, err, if◌then◌else◌,
}
use trackflow.Prelude.Action.{Action, lift, raise, ◌>>=◌, ◌>>◌}
use trackflow.Text.{Text, text, text_eq, is_empty}
use trackflow.Http.{Header}
use trackflow.Gateway.Error.{
  HttpError, new_http_error, method_not_allowed, HandlerError, http, ErrorReply, handle,
}
use trackflow.Gateway.Headers.{copy_headers, request_id_from_headers, set_request_id_headers}
use trackflow.Gateway.Upstream.{Url, UpstreamResponse, Formats, build_target_url, upstream_failure}
use trackflow.Gateway.Validation.{
  Request, Parsed, validate_limit, validate_order_id, validate_create_order_request,
  validate_assign_order_request, validate_update_status_request, max_orders_list_limit,
  max_timeline_list_limit,
}

-- Ten seconds, in nanoseconds.
abbrev pub default_upstream_timeout : ℤ
default_upstream_timeout = pos 10_000_000_000

-- What is asked of an error of the client and of the request's context.
pub record SendError : Type 0 where
  pub is_deadline_exceeded : Bool
  pub is_net_timeout : Bool
  pub context_deadline_exceeded : Bool

pub record UpstreamRequest : Type 0 where
  pub method : Text
  pub url : Url
  pub header : Header
  pub body : Option Text
  pub timeout : ℤ

-- http.NewRequestWithContext, which may refuse, and Client.Do.
pub record Client (S : Type 0) : Type 0 where
  pub prepares : Text → Url → Bool
  pub deliver : UpstreamRequest → Action S SendError UpstreamResponse

pub record GatewayProxy (S : Type 0) : Type 0 where
  pub client : Option (Client S)
  pub timeout : ℤ
  pub order_base : Option Url
  pub tracking_base : Option Url

-- What is written for a request that was forwarded.
pub record Answer : Type 0 where
  pub status : ℕ
  pub header : Header
  pub body : Option Text

unfoldable pub is_timeout_error : SendError → Bool
is_timeout_error e = e.is_deadline_exceeded || e.is_net_timeout

unfoldable pub send_failure : SendError → HttpError
unfolding is_timeout_error
send_failure e =
    if is_timeout_error e || e.context_deadline_exceeded
    then new_http_error 504 (text "gateway_timeout") (text "upstream request timeout")
    else new_http_error 502 (text "upstream_unavailable") (text "upstream service is unavailable")

-- The headers of the request to the service.
unfoldable pub upstream_header : Request → Header
upstream_header r =
    let request_id =
      if is_empty r.request_id then request_id_from_headers r.header else r.request_id in
    set_request_id_headers r.header request_id

module _ {S : Type 0} (f : Formats) (p : GatewayProxy S) (own : Header) where
  -- The answer of a service, for a writer whose headers are `own`.
  relay : UpstreamResponse → Result HttpError Answer
  relay resp =
      if leb 400 resp.status_code
      then err (upstream_failure f resp)
      else ok record {
        status = resp.status_code;
        header = copy_headers own resp.header;
        body = resp.body;
      }

  answered : Result SendError UpstreamResponse × S → Result HttpError Answer × S
  unfolding relay
  answered (ok resp, s) = (relay resp, s)
  answered (err e, s) = (err (send_failure e), s)

  unfoldable pub upstream_request : Request → Url → UpstreamRequest
  unfolding upstream_header
  upstream_request r base = record {
    method = r.method;
    url = build_target_url base r.path r.raw_query;
    header = upstream_header r;
    body = r.content;
    timeout = if lebℤ p.timeout (pos 0) then default_upstream_timeout else p.timeout;
  }

  sent : Client S → UpstreamRequest → Action S HttpError Answer
  unfolding answered
  sent client request s =
      if client.prepares request.method request.url then answered (client.deliver request s) else (
        err (
            new_http_error 502 (text "upstream_request_error")
              (text "failed to prepare upstream request")),
        s,
      )

  unfoldable pub forward : Request → Option Url → Action S HttpError Answer
  unfolding sent upstream_request
  forward r base = elim p.client [
    | none ↦ unconfigured
    | some client ↦ elim base [
      | none ↦ unconfigured
      | some url ↦ sent client (upstream_request r url)
    ]
  ]
    where
      unconfigured : Action S HttpError Answer
      unconfigured = raise (
          new_http_error 502 (text "upstream_unavailable")
            (text "upstream service is not configured"))

  -- The method that a handler asks for.
  only : Text → Request → Result HttpError (Unit {0})
  only method r = if text_eq r.method method then ok tt else err (method_not_allowed r.method)

  -- The checks of ordersCollection.
  unfoldable pub collection_checks : Request → Result HttpError (Unit {0})
  collection_checks r =
      if text_eq r.method (text "GET")
      then validate_limit r.limit max_orders_list_limit
      else if text_eq r.method (text "POST")
      then validate_create_order_request r
      else err (method_not_allowed r.method)

  unfoldable pub orders_collection : Request → Action S HttpError Answer
  unfolding forward
  orders_collection r = do lift (collection_checks r); forward r p.order_base

  unfoldable pub order_by_id : Request → Action S HttpError Answer
  unfolding forward only
  order_by_id r = do
    lift (only (text "GET") r)
    lift (validate_order_id r.path_id)
    forward r p.order_base

  unfoldable pub assign_order : Request → Action S HttpError Answer
  unfolding forward only
  assign_order r = do
    lift (only (text "POST") r)
    lift (validate_order_id r.path_id)
    lift (validate_assign_order_request r)
    forward r p.order_base

  unfoldable pub update_order_status : (Text → Parsed) → Request → Action S HttpError Answer
  unfolding forward only
  update_order_status parse r = do
    lift (only (text "POST") r)
    lift (validate_order_id r.path_id)
    lift (validate_update_status_request parse r)
    forward r p.tracking_base

  unfoldable pub get_order_timeline : Request → Action S HttpError Answer
  unfolding forward only
  get_order_timeline r = do
    lift (only (text "GET") r)
    lift (validate_order_id r.path_id)
    lift (validate_limit r.limit max_timeline_list_limit)
    forward r p.tracking_base

-- Adapt: the answer, or the error that the error handler writes.
pub data Written : Type 0 where
  relayed : Answer → Written
  reported : ErrorReply → Written

written : {S : Type 0} → Request → Result HttpError Answer × S → Written × S
written r (ok answer, s) = (relayed answer, s)
written r (err e, s) = (reported (handle r.request_id (http e)), s)

unfoldable pub adapt :
    {S : Type 0} → (Request → Action S HttpError Answer) → Request → S → Written × S
unfolding handle written
adapt handler r s = written r (handler r s)
