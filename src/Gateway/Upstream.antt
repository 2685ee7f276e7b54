-- ===== src/Gateway/Upstream.antt =====
-- The answers of the services, and their addresses, in
-- services/api-gateway/internal/gateway/proxy.go. The JSON of an error answer and the table of
-- status texts are parameters.
pub mod Codes
use trackflow.Prelude.{ℕ, ◌==◌, ◌++◌, List, [], ◌∷◌, Option, none, some, if◌then◌else◌}
use trackflow.Text.{Text, text, text_eq, trim_space, trim_prefix, to_lower, is_empty, lookup}
use trackflow.Http.{Header}
use trackflow.Gateway.Error.{HttpError, new_http_error}

-- url.URL: what stands before the path, the path, and the query.
pub record Url : Type 0 where
  pub origin : Text
  pub path : Text
  pub raw_query : Text

-- `body` is none where reading it fails.
pub record UpstreamResponse : Type 0 where
  pub status_code : ℕ
  pub header : Header
  pub body : Option Text

-- `error` is the raw JSON of the field, empty where it is missing.
pub record Envelope : Type 0 where
  pub code : Text
  pub message : Text
  pub error : Text

-- json.Unmarshal into an envelope, a string and a detailedError (its code and message), and
-- http.StatusText.
pub record Formats : Type 0 where
  pub envelope : Text → Option Envelope
  pub string : Text → Option Text
  pub detailed_error : Text → Option (Text × Text)
  pub status_text : ℕ → Text

unfoldable pub status_code_to_error_code : ℕ → Text
status_code_to_error_code status =
    if status == 400
    then text "bad_request"
    else if status == 401
    then text "unauthorized"
    else if status == 403
    then text "forbidden"
    else if status == 404
    then text "not_found"
    else if status == 409
    then text "conflict"
    else if status == 429
    then text "too_many_requests"
    else if status == 500
    then text "internal_error"
    else if status == 502
    then text "bad_gateway"
    else if status == 503
    then text "service_unavailable"
    else if status == 504
    then text "gateway_timeout"
    else text "upstream_error"

business_codes : List (Text × Text)
business_codes =
    (text "order not found", text "order_not_found")
    ∷ (text "courier not found", text "courier_not_found")
    ∷ (text "order already assigned", text "order_already_assigned")
    ∷ (text "assignment is not allowed for current order status", text "assignment_not_allowed")
    ∷ (text "status transition is not allowed", text "status_transition_not_allowed")
    ∷ (text "idempotency-key header is required", text "idempotency_key_required")
    ∷ []

-- A message without a business code.
code_of_status : ℕ → Text
code_of_status status = if status == 400 then text "validation_error" else text ""

unfoldable pub infer_business_error_code : ℕ → Text → Text
unfolding business_codes code_of_status
infer_business_error_code status message =
    let normalized = to_lower (trim_space message) in
    if is_empty normalized
    then text ""
    else elim (lookup normalized business_codes) [ none ↦ code_of_status status | some code ↦ code ]

-- The first, unless it is empty.
abbrev pub or_else : Text → Text → Text
or_else s other = if is_empty s then other else s

module _ (f : Formats) where
  -- The code and message that the field `error` completes.
  with_error_field : (code message error : Text) → Text × Text
  with_error_field code message error =
      if is_empty error then (code, message) else elim (f.string error) [
        | some text_value ↦ (code, or_else message (trim_space text_value))
        | none ↦ elim (f.detailed_error error) [
          | none ↦ (code, message)
          | some (detailed_code, detailed_message) ↦ (
            or_else code (trim_space detailed_code),
            or_else message (trim_space detailed_message),
          )
        ]
      ]

  parse_body : Text → Text × Text
  unfolding with_error_field
  parse_body body =
      let raw = trim_space body in
      if is_empty raw then (text "", text "") else elim (f.envelope body) [
        | none ↦ (text "", raw)
        | some payload ↦
            with_error_field (trim_space payload.code) (trim_space payload.message) payload.error
      ]

  -- The code and the message; the raw body is only logged.
  unfoldable pub parse_upstream_error : UpstreamResponse → Text × Text
  unfolding parse_body
  parse_upstream_error resp = elim resp.body [
    | none ↦ (text "", text "")
    | some body ↦ parse_body body
  ]

  -- The error of `forward` for a status of 400 or more.
  unfoldable pub upstream_failure : UpstreamResponse → HttpError
  upstream_failure resp =
      let (code, message) = parse_upstream_error resp in
      let inferred = or_else code (infer_business_error_code resp.status_code message) in
      new_http_error resp.status_code
        (or_else inferred (status_code_to_error_code resp.status_code))
        (or_else message
          (or_else (to_lower (f.status_text resp.status_code)) (text "upstream service error")))

-- strings.TrimSuffix(…, "/").
trim_slash : Text → Text
trim_slash [] = []
trim_slash (c ∷ []) = if c == b'/' then [] else c ∷ []
trim_slash (c ∷ d ∷ s) = c ∷ trim_slash (d ∷ s)

unfoldable pub join_url_paths : (base_path request_path : Text) → Text
unfolding trim_slash
join_url_paths base_path request_path =
    let base_trimmed = trim_slash base_path in
    let request_trimmed = trim_prefix request_path (text "/") in
    if is_empty base_trimmed
    then text "/" ++ request_trimmed
    else if is_empty request_trimmed
    then base_trimmed
    else base_trimmed ++ (text "/" ++ request_trimmed)

unfoldable pub build_target_url : Url → (request_path raw_query : Text) → Url
build_target_url base request_path raw_query = record base {
  path = join_url_paths base.path request_path;
  raw_query = raw_query;
}
