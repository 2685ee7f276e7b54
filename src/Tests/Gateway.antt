-- ===== src/Tests/Gateway.antt =====
-- The gateway at one creation and one error of order-service.
use trackflow.Prelude.{◌≡◌, ℕ, suc, [], ◌∷◌, none, some, ok, refl, pos, true, false}
use trackflow.Text.{Text, text, text_eq, trim_prefix, is_space, trim_space, is_empty}
use trackflow.Text.Laws.{trim_space_visible}
use trackflow.Tracking.Handler.{value, eof}
use trackflow.Order.Error as OrderError
use trackflow.Order.Validation.{normalize_create_input}
use trackflow.Order.Handler.{assign_failure}
use trackflow.Gateway.Error.{new_http_error}
use trackflow.Gateway.Validation.{json_object, Request, validate_create_payload}
use trackflow.Gateway.Validation.Agreement.{is_ok, validate_create_payload-agrees}
use trackflow.Gateway.Upstream.{Url, Formats, upstream_failure}
use trackflow.Gateway.Upstream.Codes.{
  ReadsErrors, assignment_answer, upstream_failure-assign_failure, told_of,
}
use trackflow.Gateway.Proxy.{GatewayProxy, Client, orders_collection, update_order_status}
use trackflow.Gateway.Proxy.Forwarding.{Creation, orders_collection-Creation}
use trackflow.Gateway.Headers.{set_request_id_headers}
use trackflow.Gateway.Headers.Passing.{apply_to_request-middleware}
use trackflow.RequestId.{middleware, resolve_from_headers, apply_to_request}
use trackflow.Gateway.Proxy.Updates.{Update, update_order_status-Update}
use trackflow.Tests.Orders.{order_id, input}
use trackflow.Tests.Order.{order_input}

validate_create_payload-agrees_example :
    is_ok (validate_create_payload order_input) ≡ is_ok (normalize_create_input order_input)
validate_create_payload-agrees_example = validate_create_payload-agrees order_input

-- Texts that stand for their JSON, behind one letter.
abbrev encode : Text → Text
encode what = b'e' ∷ what

abbrev pub formats : Formats
formats = record {
  envelope = λ body. some record { code = text ""; message = text ""; error = body };
  string = λ s. some (trim_prefix s (text "e"));
  detailed_error = λ s. none;
  status_text = λ status. text "Status";
}

formats-ReadsErrors : ReadsErrors formats
unfolding trim_prefix is_space
formats-ReadsErrors = record {
  encode = encode;
  quote = encode;
  visible = λ what. trim_space_visible b'e' what refl;
  quoted = λ what. refl;
  read_envelope = λ what. refl;
  read_string = λ what. refl;
}

upstream_failure-assign_failure_example :
    upstream_failure formats
      (assignment_answer formats formats-ReadsErrors [] OrderError.order_already_assigned)
    ≡ new_http_error
        (assign_failure OrderError.order_already_assigned).status
        (text "order_already_assigned")
        (told_of (assign_failure OrderError.order_already_assigned).payload)
upstream_failure-assign_failure_example =
    upstream_failure-assign_failure formats formats-ReadsErrors [] OrderError.order_already_assigned
      refl

abbrev pub service_url : Url
service_url = record { origin = text "http://order-service:8082"; path = []; raw_query = [] }

-- A client that counts its calls, and answers 201.
abbrev client : Client ℕ
client = record {
  prepares = λ method url. true;
  deliver = λ request n. (ok record { status_code = 201; header = []; body = some [] }, suc n);
}

abbrev pub proxy : GatewayProxy ℕ
proxy = record {
  client = some client;
  timeout = pos 0;
  order_base = some service_url;
  tracking_base = none;
}

abbrev pub request : Request
request = record {
  method = text "POST";
  path = text "/v1/orders";
  path_id = [];
  raw_query = [];
  limit = [];
  header = (text "Idempotency-Key", text "k2" ∷ []) ∷ [];
  request_id = text "r";
  content = some (text "{}");
  create_body = record { first = value order_input; next = eof };
  assign_body = record { first = eof; next = eof };
  update_body = record { first = eof; next = eof };
}

pub posted : text_eq request.method (text "POST") ≡ true
unfolding text_eq
posted = refl

orders_collection-Creation_example :
    Creation formats proxy [] request 0 (orders_collection formats proxy [] request 0)
orders_collection-Creation_example = orders_collection-Creation formats proxy [] request 0 posted

given : is_empty (trim_space (text " r1")) ≡ false
unfolding trim_space
given = refl

apply_to_request-middleware_example :
    let entered = middleware none (set_request_id_headers [] (text " r1")) [] none in
    (resolve_from_headers entered.0 ≡ trim_space (text " r1"))
    × ((apply_to_request none entered.1 []).0 ≡ trim_space (text " r1"))
    × (resolve_from_headers (apply_to_request none entered.1 []).1 ≡ trim_space (text " r1"))
apply_to_request-middleware_example =
    apply_to_request-middleware (text " r1") none none [] [] none given

abbrev pub update_request : Request
update_request = record request {
  path_id = order_id;
  update_body = record { first = value input; next = eof };
}

update_order_status-Update_example :
    Update
      (λ metadata. json_object)
      formats
      proxy
      []
      update_request
      0
      (update_order_status formats proxy [] (λ metadata. json_object) update_request 0)
update_order_status-Update_example =
    update_order_status-Update (λ metadata. json_object) formats proxy [] update_request 0
