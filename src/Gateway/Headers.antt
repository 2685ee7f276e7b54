-- ===== src/Gateway/Headers.antt =====
-- The headers and request ids of services/api-gateway/internal/gateway: middleware.go and proxy.go.
pub mod Passing
use trackflow.Prelude.{ℕ, List, [], ◌∷◌, Option, none, some, if◌then◌else◌}
use trackflow.Text.{Text, text, trim_space, is_empty}
use trackflow.Http.{
  Header, get, set, add, request_id_header, correlation_id_header, encode_to_string,
}

add_all : Header → Text → List Text → Header
add_all header key [] = header
add_all header key (value ∷ values) = add_all (add header key value) key values

unfoldable pub copy_headers : (destination source : Header) → Header
unfolding add_all
copy_headers destination [] = destination
copy_headers destination ((key, values) ∷ source) =
    copy_headers (add_all destination key values) source

unfoldable pub request_id_from_headers : Header → Text
request_id_from_headers header =
    let request_id = trim_space (get header request_id_header) in
    if is_empty request_id then trim_space (get header correlation_id_header) else request_id

unfoldable pub set_request_id_headers : Header → Text → Header
set_request_id_headers header request_id =
    let id = trim_space request_id in
    if is_empty id then header else set (set header request_id_header id) correlation_id_header id

-- The twelve bytes of rand.Read, or none where it fails.
unfoldable pub generate_request_id : Option (List ℕ) → Text
unfolding encode_to_string
generate_request_id none = text "generated-request-id"
generate_request_id (some buffer) = encode_to_string buffer
