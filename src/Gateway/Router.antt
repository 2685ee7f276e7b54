-- ===== src/Gateway/Router.antt =====
-- services/api-gateway/internal/gateway/router.go. How a path is split at its
-- slashes is a parameter; a path that is not clean, which the mux redirects, is outside the model.
pub mod Answers
pub mod Endpoints
pub mod Served
use trackflow.Prelude.{ℕ, List, [], ◌∷◌, Option, none, some, not, ◌&&◌, if◌then◌else◌}
use trackflow.Prelude.Action.{Action}
use trackflow.Prelude.{Result, ok, err}
use trackflow.Text.{Text, text, text_eq, is_empty}
use trackflow.Http.{Header, set}
use trackflow.Http.Handling.{ResponseWriter, Handler, Outcome, returned, not_found, content_type}
use trackflow.Http.Mux.{Segment, literal, wildcard, Route, route, find_route}
use trackflow.Metrics.{Milliseconds, MetricsSnapshot}
use trackflow.Metrics.Middleware.{Serving, Asked, drawn}
use trackflow.Metrics.Middleware as HttpMetrics
use trackflow.Gateway.Error.{HttpError, ErrorReply, HandlerError, http, handle, method_not_allowed}
use trackflow.Gateway.Validation.{Request, Parsed}
use trackflow.Gateway.Upstream.{Formats}
use trackflow.Gateway.Proxy.{
  GatewayProxy, Answer, orders_collection, order_by_id, assign_order, update_order_status,
  get_order_timeline,
}
use trackflow.Gateway.Middleware.{chain, recover, request_id, write_reply}

pub data Endpoint : Type 0 where
  health : Endpoint
  metrics : Endpoint
  orders : Endpoint
  order : Endpoint
  assign : Endpoint
  status : Endpoint
  timeline : Endpoint

under_order : Text → List Segment
under_order last = literal (text "v1") ∷ literal (text "orders") ∷ wildcard ∷ literal last ∷ []

-- The patterns that NewRouter registers. No two of them match one path.
unfoldable pub routes : List (Route Endpoint)
unfolding under_order
routes =
    route (text "/health") (literal (text "health") ∷ []) health
    ∷ route (text "/metrics") (literal (text "metrics") ∷ []) metrics
    ∷ route (text "/v1/orders") (literal (text "v1") ∷ literal (text "orders") ∷ []) orders
    ∷ route (text "/v1/orders/{id}") (literal (text "v1") ∷ literal (text "orders") ∷ wildcard ∷ [])
        order
    ∷ route (text "/v1/orders/{id}/assign") (under_order (text "assign")) assign
    ∷ route (text "/v1/orders/{id}/status") (under_order (text "status")) status
    ∷ route (text "/v1/orders/{id}/timeline") (under_order (text "timeline")) timeline
    ∷ []

abbrev pub asked : Asked Request
asked = record { method = λ r. r.method; path = λ r. r.path }

-- io.Copy, which writes nothing where the body cannot be read.
copy_body : {W : Type 0} → ResponseWriter W → Option Text → W → W
copy_body out none w = w
copy_body out (some body) w = out.write body w

pub finish :
    {W : Type 0} → (ErrorReply → Text) → ResponseWriter W → Text → Result HttpError Answer → W → W
unfolding copy_body
finish encode out id (ok answer) w =
    copy_body out answer.body (out.write_header answer.status (out.set_header answer.header w))
finish encode out id (err e) w = write_reply encode out (handle id (http e)) w

module _ {S : Type 0} where
  -- Adapt: what the handler answers is written, and its error by the error handler.
  unfoldable pub adapted :
      (ErrorReply → Text)
      → (Header → Request → Action S HttpError Answer)
      → Handler Request (Serving S)
  unfolding finish copy_body write_reply handle
  adapted encode handler W out r (w, s) =
      let (result, rest) = handler (out.header w) r s.rest in
      (returned, (finish encode out r.request_id result w, record s { rest = rest }))

  unfoldable pub health_handler : Header → Request → Action S HttpError Answer
  unfolding method_not_allowed
  health_handler own r s =
      if not (text_eq r.method (text "GET")) then (err (method_not_allowed r.method), s) else (
        ok record {
          status = 200;
          header = set own content_type (text "text/plain; charset=utf-8");
          body = some (text "ok");
        },
        s,
      )

module _ {S F : Type 0} (encode : ErrorReply → Text) (f : Formats) (parse : Text → Parsed)
    (ms : Milliseconds F) (encode_snapshot : MetricsSnapshot ms → Text) (p : GatewayProxy S) where
  unfoldable pub endpoint_handler : Endpoint → Handler Request (Serving S)
  endpoint_handler health = adapted encode (health_handler)
  endpoint_handler metrics = HttpMetrics.handler asked ms encode_snapshot
  endpoint_handler orders = adapted encode λ own. orders_collection f p own
  endpoint_handler order = adapted encode λ own. order_by_id f p own
  endpoint_handler assign = adapted encode λ own. assign_order f p own
  endpoint_handler status = adapted encode λ own. update_order_status f p own parse
  endpoint_handler timeline = adapted encode λ own. get_order_timeline f p own

  -- What the mux does with the route that it found.
  dispatch : Option (Route Endpoint × Text) → Handler Request (Serving S)
  dispatch none W out r (w, s) = not_found W out r (w, record s { pattern = [] })
  dispatch (some (found, id)) W out r (w, s) =
      endpoint_handler found.endpoint W out (record r { path_id = id })
        (w, record s { pattern = found.pattern })

  unfoldable pub serve_mux : (Text → List Text) → Handler Request (Serving S)
  unfolding dispatch
  serve_mux path W out r st = dispatch (find_route routes (path r.path)) W out r st

  unfoldable pub new_router :
      (S → ℕ × S) → (S → Option (List ℕ) × S) → (Text → List Text) → Handler Request (Serving S)
  unfolding serve_mux chain drawn
  new_router now random path =
      chain
        (recover encode
          ∷ request_id (drawn random)
          ∷ (λ next. HttpMetrics.middleware asked now (some next))
          ∷ [])
        (serve_mux path)
