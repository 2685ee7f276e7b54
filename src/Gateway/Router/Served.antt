-- ===== src/Gateway/Router/Served.antt =====
-- The whole router of the gateway.
use trackflow.Prelude.{
  ℕ, ◌≡◌, ◌<◌, List, [], ◌∷◌, length, All, false, Bool-cases, inl, inr, Option, none, some, refl,
  arith, Option-cases,
}
use trackflow.Text.{Text, is_empty, trim_space}
use trackflow.Http.{Header, get, request_id_header}
use trackflow.Http.Laws.{encode_to_string_visible, IsRandom}
use trackflow.Gateway.Headers.{request_id_from_headers, generate_request_id, set_request_id_headers}
use trackflow.Gateway.Middleware.{chosen_id, recovered, chain, recover, request_id}
use trackflow.Gateway.Validation.{Request, Parsed}
use trackflow.Metrics.Middleware.{drawn, Serving, timed, middleware}
use trackflow.Gateway.Router.{asked, Endpoint, dispatch, new_router, serve_mux, routes, drawn}
use trackflow.Metrics.{HttpMetrics, Milliseconds, MetricsSnapshot}
use trackflow.Http.Handling.{Outcome, Sending, returned, panicked, server_writer, nothing_sent}
use trackflow.Text.Laws.{trim_space-trim_space}
use trackflow.Gateway.Router.Endpoints.{endpoint_handler-IsAnswered}
use trackflow.Metrics.Answering.{IsAnswered, not_found-IsAnswered, Served, completed-Served}
use trackflow.Metrics.Recording.{recording}
use trackflow.Http.Mux.{Route, find_route, pattern_of}
use trackflow.Gateway.Error.{ErrorReply}
use trackflow.Gateway.Upstream.{Formats}
use trackflow.Gateway.Proxy.{GatewayProxy}
use trackflow.Gateway.Router.Answers.{get-set_request_id_headers}

generate_request_id_visible :
    (bytes : List ℕ)
    → length bytes ≡ 12
    → All (λ b. b < 256) bytes
    → is_empty (trim_space (generate_request_id (some bytes))) ≡ false
unfolding generate_request_id
generate_request_id_visible [] short bounded = absurd (omega arith)
generate_request_id_visible (b ∷ bytes) full bounded = encode_to_string_visible b bytes bounded.0

generated_visible :
    {S : Type 0} (random : S → Option (List ℕ) × S)
    → IsRandom random
    → (s : S) → is_empty (trim_space (generate_request_id (random s).0)) ≡ false
unfolding generate_request_id trim_space
generated_visible random filled s = elim (Option-cases (random s).0) [
  | inl failed ↦ rw failed refl
  | inr (bytes, read) ↦
      let (full, bounded) = filled s bytes read in
      rw read (generate_request_id_visible bytes full bounded)
]

request_id_from_headers_trimmed :
    (header : Header) → trim_space (request_id_from_headers header) ≡ request_id_from_headers header
unfolding request_id_from_headers
request_id_from_headers_trimmed header =
    elim (Bool-cases (is_empty (trim_space (get header request_id_header)))) [
      | inl absent ↦ rw absent (trim_space-trim_space _)
      | inr given ↦ rw given (trim_space-trim_space _)
    ]

module _ {S F : Type 0} (encode : ErrorReply → Text) (f : Formats) (parse : Text → Parsed)
    (ms : Milliseconds F) (encode_snapshot : MetricsSnapshot ms → Text) (p : GatewayProxy S) where
  dispatch-IsAnswered :
      (found : Option (Route Endpoint × Text)) (r : Request) (w : Sending × ℕ) (s : Serving S)
      → w.0.status ≡ none
      → get w.0.header request_id_header ≡ trim_space r.request_id
      → is_empty (trim_space r.request_id) ≡ false
      → IsAnswered
          (trim_space r.request_id)
          (record s { pattern = pattern_of found })
          (dispatch encode f parse ms encode_snapshot p found (Sending × ℕ) recording r (w, s))
  unfolding dispatch pattern_of
  dispatch-IsAnswered none r w s unsent named visible =
      not_found-IsAnswered asked r (trim_space r.request_id) w (record s { pattern = [] }) unsent
        named
  dispatch-IsAnswered (some (route, id)) r w s unsent named visible =
      endpoint_handler-IsAnswered (record r { path_id = id }) w
        (record s { pattern = route.pattern }) unsent named visible encode f parse ms
        encode_snapshot p route.endpoint

  module _ (now : S → ℕ × S) (random : S → Option (List ℕ) × S) (filled : IsRandom random)
      (path : Text → List Text) where
    -- Behind the middleware of the request ids.
    measured-Served :
        (r : Request) (id : Text) (s : Serving S)
        → is_empty (trim_space id) ≡ false
        → Served asked r (pattern_of (find_route routes (path r.path))) (trim_space id) s.metrics (
            middleware asked now
              (some (serve_mux encode f parse ms encode_snapshot p path))
              Sending
              server_writer
              (record r { request_id = id })
              (record nothing_sent { header = set_request_id_headers [] id }, s))
    unfolding middleware serve_mux timed
    measured-Served r id s visible =
        let named = get-set_request_id_headers [] id visible in
        completed-Served asked now r (trim_space id) (pattern_of (find_route routes (path r.path)))
          _ _ _
          (dispatch-IsAnswered (find_route routes (path r.path)) (record r { request_id = id })
            (record nothing_sent { header = set_request_id_headers [] id }, 200)
            (timed asked now s).1 refl named visible)
          refl

    recovered-Served :
        (r : Request) (pattern id : Text) (before : HttpMetrics)
        (o : Outcome × (Sending × Serving S))
        → Served asked r pattern id before o
        → Served asked r pattern id before (recovered encode server_writer r o)
    unfolding recovered
    recovered-Served r pattern id before (returned, st) served = served
    recovered-Served r pattern id before (panicked, st) served = absurd cc

    -- Every request to the router is answered, whatever its path, its method and its body, and
    -- whatever the services make of it: a status is sent, the first X-Request-ID in its headers is
    -- the id of the request, the one that it came with or a new one, and the metrics have counted
    -- the request once, under its method, the pattern of its route and the status that was sent.
    pub new_router-Served :
        (r : Request) (s : Serving S)
        → Served asked r
            (pattern_of (find_route routes (path r.path)))
            (trim_space (chosen_id random r s.rest).0)
            s.metrics
            (new_router encode f parse ms encode_snapshot p now random path Sending server_writer r
              (nothing_sent, s))
    unfolding new_router chain request_id recover chosen_id drawn server_writer middleware
    new_router-Served r s = elim (Bool-cases (is_empty (request_id_from_headers r.header))) [
      | inl absent ↦ rw absent (
          recovered-Served r _ _ _ _ (
            measured-Served r (generate_request_id (random s.rest).0) (drawn random s).1
              (generated_visible random filled s.rest)))
      | inr given ↦ rw given (
          recovered-Served r _ _ _ _ (
            measured-Served r (request_id_from_headers r.header) s
              (rw (request_id_from_headers_trimmed r.header) given)))
    ]
