-- ===== src/Gateway/Router/Endpoints.antt =====
-- What every endpoint of the router of the gateway leaves behind.
use trackflow.Prelude.{ℕ, ◌≡◌, refl, false, Bool-cases, inl, inr, none}
use trackflow.Prelude.Action.{Action}
use trackflow.Text.{Text, text, text_eq, is_empty, trim_space}
use trackflow.Http.{Header, get, request_id_header}
use trackflow.Http.Handling.{Sending, server_writer}
use trackflow.Metrics.Middleware.{Serving, status_recorder}
use trackflow.Gateway.Error.{HttpError, ErrorReply}
use trackflow.Gateway.Proxy.{Answer, GatewayProxy}
use trackflow.Gateway.Proxy.Identity.{Keeps}
use trackflow.Gateway.Validation.{Request, Parsed}
use trackflow.Metrics.Answering.{IsAnswered, handler-IsAnswered}
use trackflow.Metrics.Recording.{recording, get-content_type}
use trackflow.Metrics.{Milliseconds, MetricsSnapshot}
use trackflow.Gateway.Upstream.{Formats}
use trackflow.Gateway.Router.{asked, health_handler, Endpoint, endpoint_handler, adapted}
use trackflow.Gateway.Router.{health, metrics, orders, order, assign, status, timeline}
use trackflow.Gateway.Router.Answers.{finish-IsSent}
use trackflow.Gateway.Proxy.Identity.{
  orders_collection-Keeps, order_by_id-Keeps, assign_order-Keeps, update_order_status-Keeps,
  get_order_timeline-Keeps,
}

module _ {S : Type 0} (r : Request) (w : Sending × ℕ) (s : Serving S) (unsent : w.0.status ≡ none)
    (named : get w.0.header request_id_header ≡ trim_space r.request_id)
    (visible : is_empty (trim_space r.request_id) ≡ false) where
  adapted-IsAnswered :
      (encode : ErrorReply → Text) (handler : Header → Request → Action S HttpError Answer)
      → Keeps w.0.header (handler w.0.header r s.rest)
      → IsAnswered
          (trim_space r.request_id)
          s
          (adapted encode handler (Sending × ℕ) recording r (w, s))
  unfolding adapted status_recorder server_writer
  adapted-IsAnswered encode handler kept =
      let (result, rest) = handler w.0.header r s.rest in
      record {
        returns = refl;
        sent = finish-IsSent encode r.request_id result w unsent named visible rest kept;
        counted = refl;
        matched = refl;
      }

  health_handler-Keeps : Keeps w.0.header (health_handler w.0.header r s.rest)
  unfolding health_handler Keeps
  health_handler-Keeps = elim (Bool-cases (text_eq r.method (text "GET"))) [
    | inl got ↦ rw got (get-content_type w.0.header _)
    | inr other ↦ rw other tt
  ]

  id_given : is_empty (get w.0.header request_id_header) ≡ false
  id_given = rw named visible

  pub endpoint_handler-IsAnswered :
      {F : Type 0} (encode : ErrorReply → Text) (f : Formats) (parse : Text → Parsed)
      (ms : Milliseconds F) (encode_snapshot : MetricsSnapshot ms → Text) (p : GatewayProxy S)
      (endpoint : Endpoint)
      → IsAnswered (trim_space r.request_id) s (
          endpoint_handler encode f parse ms encode_snapshot p endpoint
            (Sending × ℕ)
            recording
            r
            (w, s))
  unfolding endpoint_handler
  endpoint_handler-IsAnswered encode f parse ms encode_snapshot p health =
      adapted-IsAnswered encode health_handler health_handler-Keeps
  endpoint_handler-IsAnswered encode f parse ms encode_snapshot p metrics =
      handler-IsAnswered asked r (trim_space r.request_id) w s unsent named ms encode_snapshot
  endpoint_handler-IsAnswered encode f parse ms encode_snapshot p orders =
      adapted-IsAnswered encode _ (orders_collection-Keeps f p w.0.header id_given r s.rest)
  endpoint_handler-IsAnswered encode f parse ms encode_snapshot p order =
      adapted-IsAnswered encode _ (order_by_id-Keeps f p w.0.header id_given r s.rest)
  endpoint_handler-IsAnswered encode f parse ms encode_snapshot p assign =
      adapted-IsAnswered encode _ (assign_order-Keeps f p w.0.header id_given r s.rest)
  endpoint_handler-IsAnswered encode f parse ms encode_snapshot p status =
      adapted-IsAnswered encode _ (update_order_status-Keeps f p w.0.header id_given r parse s.rest)
  endpoint_handler-IsAnswered encode f parse ms encode_snapshot p timeline =
      adapted-IsAnswered encode _ (get_order_timeline-Keeps f p w.0.header id_given r s.rest)
