-- ===== src/Tests/Router.antt =====
-- The router of the gateway at one creation and one panic, and the proxy of an empty environment.
use trackflow.Prelude.{◌≡◌, ℕ, suc, [], ◌∷◌, ◌++◌, List, none, some, ok, refl, true, ℤ, Option}
use trackflow.Text.{Text, text, trim_space, text_eq}
use trackflow.Http.Handling.{Handler, nothing_sent, Sending, server_writer, returned, panicked}
use trackflow.Metrics.{Milliseconds, new_http_metrics}
use trackflow.Metrics.Middleware.{drawn, Serving, middleware, timed}
use trackflow.Gateway.Error.{ErrorReply}
use trackflow.Gateway.Validation.{Request, json_object}
use trackflow.Gateway.Middleware.{chain, recover, request_id, chosen_id}
use trackflow.Gateway.Middleware.Recovery.{behind, panic_reply, recover-panicked}
use trackflow.Gateway.Router.{new_router, asked, routes}
use trackflow.Http.Laws.{IsRandom}
use trackflow.Http.Mux.{find_route, pattern_of}
use trackflow.Metrics.Answering.{Served}
use trackflow.Gateway.Router.Served.{new_router-Served}
use trackflow.Gateway.Headers.{set_request_id_headers, request_id_from_headers, generate_request_id}
use trackflow.Http.{get}
use trackflow.Gateway.Configuration.{
  is_absolute, default_order_service_url, default_tracking_service_url, ParsedUrl,
  new_gateway_proxy,
}
use trackflow.Gateway.Configuration.Complete.{IsComplete, new_gateway_proxy-IsComplete}
use trackflow.Gateway.Proxy.{Client}
use trackflow.Tests.Gateway.{formats, proxy}
use trackflow.Tests.Gateway as GatewayTests

abbrev encode : ErrorReply → Text
encode reply = reply.message

-- Whole microseconds.
abbrev micros : Milliseconds ℕ
micros = record { none = 0; latency_ms = λ d. d; divided = λ d n. d }

abbrev fail_random : ℕ → Option (List ℕ) × ℕ
fail_random n = (none, n)

fail_random-IsRandom : IsRandom fail_random
fail_random-IsRandom n bytes h = cc

abbrev clock : ℕ → ℕ × ℕ
clock n = (n, suc n)

abbrev segments : Text → List Text
segments path = text "v1" ∷ text "orders" ∷ []

abbrev serving : Serving ℕ
serving = record { metrics = new_http_metrics; pattern = []; rest = 0 }

new_router-Served_example :
    Served asked GatewayTests.request
      (pattern_of (find_route routes (segments GatewayTests.request.path)))
      (trim_space (chosen_id fail_random GatewayTests.request 0).0)
      new_http_metrics
      (new_router encode formats
        (λ metadata. json_object)
        micros
        (λ shown. [])
        proxy
        clock
        fail_random
        segments
        Sending
        server_writer
        GatewayTests.request
        (nothing_sent, serving))
new_router-Served_example =
    new_router-Served encode formats (λ metadata. json_object) micros (λ shown. []) proxy clock
      fail_random fail_random-IsRandom segments GatewayTests.request serving

abbrev panicking : Handler Request (Serving ℕ)
panicking W out r st = (panicked, st)

abbrev fresh : Request
fresh = record GatewayTests.request { request_id = [] }

panics : behind encode asked clock (drawn fail_random) panicking fresh serving ≡ (
  panicked,
  (
    (record nothing_sent { header = set_request_id_headers [] (text "generated-request-id") }, 200),
    record serving { rest = 1 },
  ),
)
unfolding chosen_id drawn timed request_id_from_headers generate_request_id trim_space get text_eq
panics = refl

recover-panicked_example :
    let (o, (answer, left)) =
      chain
        (recover encode
          ∷ request_id (drawn fail_random)
          ∷ (λ m. middleware asked clock (some m))
          ∷ [])
        panicking
        Sending
        server_writer
        fresh
        (nothing_sent, serving) in
    (o ≡ returned)
    × (answer.status ≡ some 500)
    × (answer.body ≡ [] ++ encode panic_reply)
    × (left ≡ record serving { rest = 1 })
recover-panicked_example =
    recover-panicked encode asked clock (drawn fail_random) panicking fresh serving
      (record serving { rest = 1 })
      (record nothing_sent { header = set_request_id_headers [] (text "generated-request-id") }) 200
      refl panics refl

abbrev parsed_url : Text → ParsedUrl
parsed_url source = record {
  scheme = text "http";
  host = source;
  url = record { origin = source; path = []; raw_query = [] };
}

-- Every text is an address.
abbrev parse_url : Text → Option ParsedUrl
parse_url source = some (parsed_url source)

abbrev client_of : ℤ → Client ℕ
client_of timeout = record {
  prepares = λ method url. true;
  deliver = λ request n. (ok record { status_code = 200; header = []; body = none }, n);
}

new_gateway_proxy-IsComplete_example :
    IsComplete parse_url client_of (new_gateway_proxy parse_url (λ raw. none) client_of λ key. [])
unfolding is_absolute
new_gateway_proxy-IsComplete_example =
    new_gateway_proxy-IsComplete parse_url (λ raw. none) client_of (λ key. [])
      (parsed_url default_order_service_url, refl, refl)
      (parsed_url default_tracking_service_url, refl, refl)
