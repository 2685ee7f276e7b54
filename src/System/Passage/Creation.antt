-- ===== src/System/Passage/Creation.antt =====
-- A creation on its whole way: the gateway's handler, the network, order-service and its tables.
use mathlib.Core.Path.{subst}
use trackflow.Prelude.{
  ◌≡◌, ◌≤◌, ◌<◌, ℕ, ℤ, true, false, Option, some, Result, ok, err, leb, refl, arith, sym, ap,
}
use trackflow.Text.{Text, text, text_eq}
use trackflow.Http.{Header}
use trackflow.Database.{Postgres, Database, Session}
use trackflow.Tracking.Cache.{RedisClient}
use trackflow.Order.Cache.{OrderJson}
use trackflow.Order.Repository.{OrderRepository}
use trackflow.Order.Service.{OrderService}
use trackflow.Order.Handler as OrderHandler
use trackflow.Order.Handler.{Payload, handle_orders, handle_create_order}
use trackflow.Order.Wiring.{wire}
use trackflow.Order.Wiring.Endpoint.{Answered, handle_create_order-Answered}
use trackflow.Gateway.Error.{HttpError}
use trackflow.Gateway.Upstream.{Url, UpstreamResponse, Formats, upstream_failure}
use trackflow.Gateway.Validation.{Request}
use trackflow.Gateway.Proxy.{
  GatewayProxy, Answer, UpstreamRequest, orders_collection, upstream_request, forward,
}
use trackflow.Gateway.Proxy.Forwarding.{Creation, orders_collection-Creation}
use trackflow.System.Passage.{Network, Server, remote, Passage, forward-Passage, answer_lost}
use trackflow.Gateway.Proxy.Sending.{relayed_answer}
use trackflow.Text.Laws.{text_eq_iff}

-- What net/http makes of a request and of an answer of the service.
pub record Wire : Type 0 where
  pub read : UpstreamRequest → OrderHandler.Request
  pub header : OrderHandler.Response → Header
  pub encode : Payload → Text

-- The request as order-service reads it.
abbrev pub received : Wire → UpstreamRequest → OrderHandler.Request
received wire request = record (wire.read request) { method = request.method }

abbrev pub responded : Wire → OrderHandler.Response → UpstreamResponse
responded wire response = record {
  status_code = response.status;
  header = wire.header response;
  body = some (wire.encode response.payload);
}

-- /v1/orders of order-service.
unfoldable pub order_server : {S : Type 0} → Wire → OrderService S → Server S
order_server wire svc request s =
    let (response, after) = handle_orders (some svc) (received wire request) s in
    (responded wire response, after)

-- What the gateway answers to a creation, and the tables behind it: the answer of order-service,
-- with its status, its headers behind those of the writer, and its body; the error that the gateway
-- makes of that answer; an error of its own, with the tables as they were; or one where the network
-- has lost that answer.
pub data Settled (pg : Postgres) (net : Network) (f : Formats) (own : Header) (wires : Wire)
    (request : UpstreamRequest) (req : OrderHandler.Request) (before : Database)
    : Result HttpError Answer → Database → Type 0 where
  relayed_on :
      (response : OrderHandler.Response) (after : Database)
      → Answered pg req before response after
      → response.status < 400
      → Settled pg net f own wires request req before
          (ok (relayed_answer own (responded wires response)))
          after
  passed_on :
      (response : OrderHandler.Response) (after : Database)
      → Answered pg req before response after
      → 400 ≤ response.status
      → Settled pg net f own wires request req before
          (err (upstream_failure f (responded wires response)))
          after
  unchanged :
      (e : HttpError) (after : Database)
      → after ≡ before
      → Settled pg net f own wires request req before (err e) after
  unheard :
      (e : HttpError) (response : OrderHandler.Response) (after : Database)
      → net.fate request ≡ answer_lost
      → Answered pg req before response after
      → Settled pg net f own wires request req before (err e) after

not_get :
    (method : Text) → text_eq method (text "POST") ≡ true → text_eq method (text "GET") ≡ false
unfolding text_eq
not_get method post = rw ((text_eq_iff method (text "POST")).0 post) refl

handle_orders_post :
    {S : Type 0} (svc : Option (OrderService S)) (req : OrderHandler.Request) (s : S)
    → text_eq req.method (text "POST") ≡ true
    → handle_orders svc req s ≡ handle_create_order svc req s
unfolding handle_orders
handle_orders_post svc req s post = rw (not_get req.method post, post) refl

pub below_400 : (n : ℕ) → leb 400 n ≡ false → n < 400
below_400 n good = ground arith

pub from_400 : (n : ℕ) → leb 400 n ≡ true → 400 ≤ n
from_400 n bad = ground arith

module _ {R : Type 0} (json : OrderJson) (pg : Postgres) (repo : OrderRepository)
    (redis : Option (RedisClient R)) (ttl : ℤ) (wires : Wire) (net : Network) where
  abbrev svc : OrderService (Session × R)
  svc = wire json pg repo redis ttl

  abbrev serve : Server (Session × R)
  serve = order_server wires svc

  serve-Answered :
      (request : UpstreamRequest) (st : Session × R) (resp : UpstreamResponse) (after : Session × R)
      → text_eq request.method (text "POST") ≡ true
      → serve request st ≡ (resp, after)
      → (response : OrderHandler.Response) × (resp ≡ responded wires response)
        × Answered pg (received wires request) st.0.database response after.0.database
  unfolding order_server
  serve-Answered request st resp after post h =
      let req = received wires request in
      let same = handle_orders_post (some svc) req st post in
      (
        (handle_orders (some svc) req st).0,
        sym (ap (λ o. o.0) h),
        rw (← ap (λ o. o.1) h, same) (handle_create_order-Answered json pg repo redis ttl req st),
      )

  module _ (f : Formats) (p : GatewayProxy (Session × R)) (own : Header) (r : Request) where
    Passage-Settled :
        (request : UpstreamRequest) (st : Session × R) {o : Result HttpError Answer × (Session × R)}
        → text_eq request.method (text "POST") ≡ true
        → Passage net serve f own request st o
        → Settled pg net f own wires request
            (received wires request)
            st.0.database
            o.0
            o.1.0.database
    Passage-Settled request st post (Passage.unsent e) = unchanged e st.0.database refl
    Passage-Settled request st post (Passage.relayed resp after served good) =
        let (response, same, answered) = serve-Answered request st resp after post served in
        rw same (
          relayed_on response after.0.database answered
            (below_400 response.status (rw same at good)))
    Passage-Settled request st post (Passage.failed resp after served bad) =
        let (response, same, answered) = serve-Answered request st resp after post served in
        rw same
          (passed_on response after.0.database answered (from_400 response.status (rw same at bad)))
    Passage-Settled request st post (Passage.unheard e lost) =
        let (response, same, answered) = serve-Answered request st _ _ post refl in
        unheard e response _ lost answered

    Creation-Settled :
        (url : Url) (st : Session × R) {o : Result HttpError Answer × (Session × R)}
        → p.client ≡ some (remote net serve)
        → p.order_base ≡ some url
        → text_eq r.method (text "POST") ≡ true
        → Creation f p own r st o
        → Settled pg net f own wires
            (upstream_request f p own r url)
            (received wires (upstream_request f p own r url))
            st.0.database
            o.0
            o.1.0.database
    unfolding upstream_request
    Creation-Settled url st behind at post (Creation.refused e bad) = unchanged e st.0.database refl
    Creation-Settled url st behind at post (Creation.passed checks) =
        let request = upstream_request f p own r url in
        subst
          (λ base.
            let (result, after) = forward f p own r base st in
            Settled pg net f own wires request (received wires request) st.0.database result
              after.0.database)
          (sym at)
          (Passage-Settled request st post (forward-Passage net serve f p own r url st behind))

    -- A creation sent to the gateway, with order-service behind a network that may lose the request
    -- or its answer. Either the service's answer comes back, under less than 400, with its status,
    -- its body and its headers behind those of the writer; or the error that the gateway makes of
    -- that answer, from 400 on; and the tables are as the answer says. Or another error comes back,
    -- and no table is changed unless the network has lost the answer of the service, which then
    -- tells what has happened to the tables.
    pub orders_collection-Settled :
        (url : Url) (st : Session × R)
        → p.client ≡ some (remote net serve)
        → p.order_base ≡ some url
        → text_eq r.method (text "POST") ≡ true
        → let request = upstream_request f p own r url in
          let (result, after) = orders_collection f p own r st in
          Settled pg net f own wires request
            (received wires request)
            st.0.database
            result
            after.0.database
    orders_collection-Settled url st behind at post =
        Creation-Settled url st behind at post (orders_collection-Creation f p own r st post)
