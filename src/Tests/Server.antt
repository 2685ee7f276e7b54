-- ===== src/Tests/Server.antt =====
-- The router of order-service at one creation, and the address of another service.
use trackflow.Prelude.{ℕ, [], ◌∷◌, List, Option, none, some, pos, ◌≡◌, ok, err, refl}
use trackflow.Text.{Text, text, trim_space}
use trackflow.Database.{Session}
use trackflow.Http.Laws.{IsRandom}
use trackflow.Http.Handling.{nothing_sent, Sending, server_writer}
use trackflow.Http.Mux.{Route, find_route, pattern_of}
use trackflow.Metrics.{Milliseconds, new_http_metrics}
use trackflow.Metrics.Middleware.{Serving}
use trackflow.Metrics.Answering.{Served}
use trackflow.RequestId.{incoming_id}
use trackflow.Order.Handler.{Request}
use trackflow.Order.Wiring.{wire}
use trackflow.Order.Router.{routes}
use trackflow.Server.{Incoming, Endpoint, new, asked}
use trackflow.Server.Served.{new-Served}
use trackflow.Environment.Clients.{base_url}
use trackflow.Tests.Order.{server, orders, json, store, waiting, request}

abbrev State : Type 0
State = Session × Option (Text × Text)

-- Whole microseconds.
abbrev micros : Milliseconds ℕ
micros = record { none = 0; latency_ms = λ d. d; divided = λ d n. d }

abbrev method : Request → Text
method r = r.method

abbrev fail_random : State → Option (List ℕ) × State
fail_random st = (none, st)

fail_random-IsRandom : IsRandom fail_random
fail_random-IsRandom st bytes h = cc

abbrev clock : State → ℕ × State
clock st = (0, st)

abbrev segments : Text → List Text
segments path = text "v1" ∷ text "orders" ∷ []

abbrev serving : Serving State
serving = record { metrics = new_http_metrics; pattern = []; rest = (waiting, none) }

abbrev incoming : Incoming Request
incoming = record { path = text "/v1/orders"; header = []; context = none; request = request }

abbrev order_routes : List (Route (Endpoint Request State))
order_routes = routes (λ payload. []) (some (wire json server orders (some store) (pos 5)))

new-Served_example :
    Served
      (asked method)
      incoming
      (pattern_of (find_route order_routes (segments incoming.path)))
      (trim_space (incoming_id none []))
      new_http_metrics
      (new method micros
        (λ shown. [])
        clock
        fail_random
        segments
        order_routes
        Sending
        server_writer
        incoming
        (nothing_sent, serving))
new-Served_example =
    new-Served method micros (λ shown. []) clock fail_random fail_random-IsRandom segments
      order_routes incoming serving

address :
    base_url (λ base. none) [] [] (text " http://tracking-service:8083// ")
    ≡ ok (text "http://tracking-service:8083")
unfolding base_url trim_space
address = refl

no_address : base_url (λ base. none) (text "required") [] (text " / ") ≡ err (text "required")
unfolding base_url trim_space
no_address = refl
