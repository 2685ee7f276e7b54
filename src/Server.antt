-- ===== src/Server.antt =====
-- What handler.New of the services behind the gateway (services/*/internal/handler/handler.go) puts
-- around its handlers: the mux, the middleware of the metrics and that of the request ids. `Q` is a
-- decoded request; the random bytes are a parameter, none where rand.Read fails.
pub mod Served
use trackflow.Prelude.{ℕ, List, [], Option, none, some, if◌then◌else◌}
use trackflow.Text.{Text, text, is_empty}
use trackflow.Http.{Header, set}
use trackflow.Http.Handling.{ResponseWriter, Handler, returned, not_found, content_type}
use trackflow.Http.Mux.{Route, find_route}
use trackflow.Metrics.{Milliseconds, MetricsSnapshot}
use trackflow.Metrics.Middleware.{Serving, Asked, drawn}
use trackflow.Metrics.Middleware as HttpMetrics
use trackflow.RequestId.{Context, resolve_from_headers, middleware}

pub record Incoming (Q : Type 0) : Type 0 where
  pub path : Text
  pub header : Header
  pub context : Context
  pub request : Q

-- What a handler writes: its status, its content type and its body.
pub record Page : Type 0 where
  pub status : ℕ
  pub kind : Text
  pub body : Text

abbrev pub json_page : ℕ → Text → Page
json_page status body = record {
  status = status;
  kind = text "application/json; charset=utf-8";
  body = body;
}

abbrev pub plain_page : ℕ → Text → Page
plain_page status body = record {
  status = status;
  kind = text "text/plain; charset=utf-8";
  body = body;
}

-- What is registered at a pattern: the handler of the metrics, or a handler of the service, which
-- gets the value of the wildcard.
pub data Endpoint (Q S : Type 0) : Type 0 where
  metrics : Endpoint Q S
  page : (Text → Q → S → Page × S) → Endpoint Q S

pub write_page : {W : Type 0} → ResponseWriter W → Page → W → W
write_page out answer w =
    let header = set (out.header w) content_type answer.kind in
    out.write answer.body (out.write_header answer.status (out.set_header header w))

module _ {Q T : Type 0} where
  unfoldable pub request_ids :
      (T → Option (List ℕ) × T) → Handler (Incoming Q) T → Handler (Incoming Q) T
  request_ids random next W out r (w, s) =
      let (bytes, drawn) = random s in
      let absent = is_empty (resolve_from_headers r.header) in
      let (header, context) = middleware bytes r.header (out.header w) r.context in
      next W out (record r { context = context })
        (out.set_header header w, if absent then drawn else s)

abbrev pub asked : {Q : Type 0} → (Q → Text) → Asked (Incoming Q)
asked method = record { method = λ r. method r.request; path = λ r. r.path }

module _ {Q S : Type 0} where
  module _ {F : Type 0} (method : Q → Text) (ms : Milliseconds F)
      (encode_snapshot : MetricsSnapshot ms → Text) where
    unfoldable pub serve : Option (Route (Endpoint Q S) × Text) → Handler (Incoming Q) (Serving S)
    serve none W out r (w, s) = not_found W out r (w, record s { pattern = [] })
    serve (some (found, value)) W out r (w, s) = elim found.endpoint [
      | metrics ↦
          HttpMetrics.handler (asked method) ms encode_snapshot W out r
            (w, record s { pattern = found.pattern })
      | page handler ↦
          let (answer, rest) = handler value r.request s.rest in
          (returned, (write_page out answer w, record s { pattern = found.pattern; rest = rest }))
    ]

    unfoldable pub new :
        (S → ℕ × S)
        → (S → Option (List ℕ) × S)
        → (Text → List Text)
        → List (Route (Endpoint Q S))
        → Handler (Incoming Q) (Serving S)
    unfolding request_ids serve drawn
    new now random path routes =
        request_ids (λ s. let (bytes, rest) = random s.rest in (bytes, record s { rest = rest }))
          (HttpMetrics.middleware (asked method) now
            (some λ W out r. serve (find_route routes (path r.path)) W out r))
