-- ===== src/RequestId.antt =====
-- services/order-service/internal/requestid/requestid.go, which the other services have as well. A
-- context is the request id that it carries, or none.
use trackflow.Prelude.{ℕ, List, Option, none, some, if◌then◌else◌}
use trackflow.Text.{Text, text, trim_space, is_empty}
use trackflow.Http.{Header, get, set, request_id_header, correlation_id_header, encode_to_string}

abbrev pub Context : Type 0
Context = Option Text

unfoldable pub with_request_id : Context → Text → Context
with_request_id ctx request_id =
    let id = trim_space request_id in if is_empty id then ctx else some id

unfoldable pub from_context : Context → Text
from_context none = text ""
from_context (some request_id) = trim_space request_id

unfoldable pub resolve_from_headers : Header → Text
resolve_from_headers header =
    let request_id = trim_space (get header request_id_header) in
    if is_empty request_id then trim_space (get header correlation_id_header) else request_id

unfoldable pub set_headers : Header → Text → Header
set_headers header request_id =
    let id = trim_space request_id in
    if is_empty id then header else set (set header request_id_header id) correlation_id_header id

-- The twelve bytes of rand.Read, or none where it fails.
unfoldable pub generate : Option (List ℕ) → Text
generate none = text "generated-request-id"
generate (some buffer) = encode_to_string buffer

-- The id that Middleware gives to a request.
unfoldable pub incoming_id : Option (List ℕ) → Header → Text
incoming_id random header =
    let request_id = resolve_from_headers header in
    if is_empty request_id then generate random else request_id

-- The headers of the answer and the context of the handler.
unfoldable pub middleware :
    Option (List ℕ) → (received answer : Header) → Context → Header × Context
middleware random received answer ctx =
    let request_id = incoming_id random received in
    (set_headers answer request_id, with_request_id ctx request_id)

-- The id of an outgoing request, and its headers.
unfoldable pub apply_to_request : Option (List ℕ) → Context → Header → Text × Header
apply_to_request random ctx header =
    let resolved = resolve_from_headers header in
    let carried = if is_empty resolved then from_context ctx else resolved in
    let request_id = if is_empty carried then generate random else carried in
    (request_id, set_headers header request_id)
