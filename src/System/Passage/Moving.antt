-- ===== src/System/Passage/Moving.antt =====
-- A status update on its whole way: the gateway's handler, the network, tracking-service and its
-- tables.
use mathlib.Core.Path.{subst}
use trackflow.Prelude.{◌≡◌, ◌≤◌, ◌<◌, ℤ, Option, some, Result, ok, err, refl, sym, ap}
use trackflow.Http.{Header}
use trackflow.Database.{Postgres, Database, Session}
use trackflow.Tracking.Cache.{RedisClient, TimelineJson}
use trackflow.Tracking.Repository.{TrackingRepository}
use trackflow.Tracking.Service.{TrackingService, Notifier}
use trackflow.Tracking.Handler as TrackingHandler
use trackflow.Tracking.Handler.{Payload, handle_update_order_status}
use trackflow.Tracking.Wiring.{wire}
use trackflow.Tracking.Wiring.Endpoint.{Answered, handle_update_order_status-Answered}
use trackflow.Gateway.Error.{HttpError}
use trackflow.Gateway.Upstream.{Url, UpstreamResponse, Formats, upstream_failure}
use trackflow.Gateway.Validation.{Request, Parsed}
use trackflow.Gateway.Proxy.{
  GatewayProxy, Answer, UpstreamRequest, update_order_status, upstream_request, forward,
}
use trackflow.Gateway.Proxy.Updates.{Update, update_order_status-Update}
use trackflow.System.Passage.{Network, Server, remote, Passage, forward-Passage, answer_lost}
use trackflow.Gateway.Proxy.Sending.{relayed_answer}
use trackflow.System.Passage.Creation.{below_400, from_400}
use trackflow.Text.{Text}

-- What net/http makes of a request and of an answer of the service.
pub record Wire : Type 0 where
  pub read : UpstreamRequest → TrackingHandler.Request
  pub header : TrackingHandler.Response → Header
  pub encode : Payload → Text

abbrev responded : Wire → TrackingHandler.Response → UpstreamResponse
responded wire response = record {
  status_code = response.status;
  header = wire.header response;
  body = some (wire.encode response.payload);
}

-- /v1/orders/{order_id}/status of tracking-service.
unfoldable pub status_server : {S : Type 0} → Wire → TrackingService S → Server S
status_server wire svc request s =
    let (response, after) = handle_update_order_status (some svc) (wire.read request) s in
    (responded wire response, after)

-- What the gateway answers to a status update, and the tables behind it: the answer of
-- tracking-service, with its status, its headers behind those of the writer, and its body; the error
-- that the gateway makes of that answer; an error of its own, with the tables as they were; or one
-- where the network has lost that answer.
pub data Settled (pg : Postgres) (net : Network) (f : Formats) (own : Header) (wires : Wire)
    (request : UpstreamRequest) (before : Session)
    : Result HttpError Answer → Database → Type 0 where
  relayed_on :
      (response : TrackingHandler.Response) (after : Database)
      → Answered pg (wires.read request) before response after
      → response.status < 400
      → Settled pg net f own wires request before
          (ok (relayed_answer own (responded wires response)))
          after
  passed_on :
      (response : TrackingHandler.Response) (after : Database)
      → Answered pg (wires.read request) before response after
      → 400 ≤ response.status
      → Settled pg net f own wires request before
          (err (upstream_failure f (responded wires response)))
          after
  unchanged :
      (e : HttpError) (after : Database)
      → after ≡ before.database
      → Settled pg net f own wires request before (err e) after
  unheard :
      (e : HttpError) (response : TrackingHandler.Response) (after : Database)
      → net.fate request ≡ answer_lost
      → Answered pg (wires.read request) before response after
      → Settled pg net f own wires request before (err e) after

module _ {R : Type 0} (pg : Postgres) (repo : TrackingRepository) (notifier : Notifier R)
    (json : TimelineJson) (ttl : ℤ) (redis : Option (RedisClient R)) (wires : Wire)
    (net : Network) where
  abbrev svc : TrackingService (Session × R)
  svc = wire pg repo notifier json ttl redis

  abbrev serve : Server (Session × R)
  serve = status_server wires svc

  serve-Answered :
      (request : UpstreamRequest) (st : Session × R) (resp : UpstreamResponse) (after : Session × R)
      → serve request st ≡ (resp, after)
      → (response : TrackingHandler.Response) × (resp ≡ responded wires response)
        × Answered pg (wires.read request) st.0 response after.0.database
  unfolding status_server
  serve-Answered request st resp after h = (
    (handle_update_order_status (some svc) (wires.read request) st).0,
    sym (ap (λ o. o.0) h),
    rw (← ap (λ o. o.1) h) (
        handle_update_order_status-Answered pg repo notifier json ttl redis (wires.read request)
          st.0 st.1),
  )

  module _ (f : Formats) (p : GatewayProxy (Session × R)) (own : Header) (parse : Text → Parsed)
      (r : Request) where
    Passage-Settled :
        (request : UpstreamRequest) (st : Session × R) {o : Result HttpError Answer × (Session × R)}
        → Passage net serve f own request st o
        → Settled pg net f own wires request st.0 o.0 o.1.0.database
    Passage-Settled request st (Passage.unsent e) = unchanged e st.0.database refl
    Passage-Settled request st (Passage.relayed resp after served good) =
        let (response, same, answered) = serve-Answered request st resp after served in
        rw same (
          relayed_on response after.0.database answered
            (below_400 response.status (rw same at good)))
    Passage-Settled request st (Passage.failed resp after served bad) =
        let (response, same, answered) = serve-Answered request st resp after served in
        rw same
          (passed_on response after.0.database answered (from_400 response.status (rw same at bad)))
    Passage-Settled request st (Passage.unheard e lost) =
        let (response, same, answered) = serve-Answered request st _ _ refl in
        unheard e response _ lost answered

    Update-Settled :
        (url : Url) (st : Session × R) {o : Result HttpError Answer × (Session × R)}
        → p.client ≡ some (remote net serve)
        → p.tracking_base ≡ some url
        → Update parse f p own r st o
        → Settled pg net f own wires (upstream_request f p own r url) st.0 o.0 o.1.0.database
    Update-Settled url st behind at (Update.refused e bad) = unchanged e st.0.database refl
    Update-Settled url st behind at (Update.passed checks) =
        let request = upstream_request f p own r url in
        subst
          (λ base.
            let (result, after) = forward f p own r base st in
            Settled pg net f own wires request st.0 result after.0.database)
          (sym at) (Passage-Settled request st (forward-Passage net serve f p own r url st behind))

    -- A status update sent to the gateway, with tracking-service behind a network that may lose the
    -- request or its answer. Either the service's answer comes back, under less than 400, with its
    -- status, its body and its headers behind those of the writer; or the error that the gateway
    -- makes of that answer, from 400 on; and the tables are as the answer says of the request that
    -- was forwarded. Or another error comes back, and no table is changed unless the network has
    -- lost the answer of the service, which then tells what has happened to the tables.
    pub update_order_status-Settled :
        (url : Url) (st : Session × R)
        → p.client ≡ some (remote net serve)
        → p.tracking_base ≡ some url
        → let request = upstream_request f p own r url in
          let (result, after) = update_order_status f p own parse r st in
          Settled pg net f own wires request st.0 result after.0.database
    update_order_status-Settled url st behind at =
        Update-Settled url st behind at (update_order_status-Update parse f p own r st)
