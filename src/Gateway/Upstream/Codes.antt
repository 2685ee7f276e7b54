-- ===== src/Gateway/Upstream/Codes.antt =====
-- The codes that the gateway gives to the errors of the services.
use trackflow.Prelude.{ℕ, ◌≡◌, arith, refl, some, false}
use trackflow.Text.{Text, text, trim_space, to_lower, is_empty, text_eq, lookup}
use trackflow.Order.Error as OrderError
use trackflow.Order.Handler.{Payload, error_response, assign_failure}
use trackflow.Gateway.Error.{new_http_error}
use trackflow.Gateway.Upstream.{
  with_error_field, UpstreamResponse, Formats, infer_business_error_code, upstream_failure,
  parse_upstream_error, status_code_to_error_code, parse_body, or_else,
}
use trackflow.Http.{Header}

-- What encoding/json makes of an error answer: the text that the services write for a message, and
-- what the gateway reads of it.
pub record ReadsErrors (f : Formats) : Type 0 where
  pub encode : Text → Text
  pub quote : Text → Text
  pub visible : (what : Text) → is_empty (trim_space (encode what)) ≡ false
  pub quoted : (what : Text) → is_empty (quote what) ≡ false
  pub read_envelope :
      (what : Text)
      → f.envelope (encode what)
        ≡ some record { code = text ""; message = text ""; error = quote what }
  pub read_string : (what : Text) → f.string (quote what) ≡ some what

-- The codes of the errors of an assignment and of a status update.
abbrev pub code_of_assignment : OrderError.Error → Text
code_of_assignment OrderError.order_not_found = text "order_not_found"
code_of_assignment OrderError.courier_not_found = text "courier_not_found"
code_of_assignment OrderError.order_already_assigned = text "order_already_assigned"
code_of_assignment OrderError.assignment_not_allowed = text "assignment_not_allowed"
code_of_assignment _ = text "internal_error"

blank_trimmed : trim_space (text "") ≡ text ""
unfolding trim_space
blank_trimmed = refl

module _ (f : Formats) (json : ReadsErrors f) (header : Header) where
  -- The answer that carries an error.
  abbrev answer_with : ℕ → Text → UpstreamResponse
  answer_with status what = record {
    status_code = status;
    header = header;
    body = some (json.encode what);
  }

  parsed :
      (status : ℕ) (what : Text)
      → parse_upstream_error f (answer_with status what) ≡ (text "", trim_space what)
  unfolding parse_upstream_error parse_body with_error_field
  parsed status what = ground (
    arith,
    json.visible what,
    json.quoted what,
    json.read_envelope what,
    json.read_string what,
    blank_trimmed,
  )

  upstream_failure_lem :
      (status : ℕ) (what : Text)
      → is_empty (trim_space what) ≡ false
      → upstream_failure f (answer_with status what)
        ≡ new_http_error status
            (or_else
              (infer_business_error_code status (trim_space what))
              (status_code_to_error_code status))
            (trim_space what)
  unfolding upstream_failure
  upstream_failure_lem status what given = rw (parsed status what) (rw given refl)

-- The message of an error answer.
abbrev pub told_of : Payload → Text
told_of (error_response what) = what
told_of _ = text ""

module _ (f : Formats) (json : ReadsErrors f) (header : Header) where
  -- The answer of order-service to a failed assignment.
  abbrev pub assignment_answer : OrderError.Error → UpstreamResponse
  assignment_answer e =
      answer_with f json header (assign_failure e).status (told_of (assign_failure e).payload)

  -- An error of the service on an assignment, other than a validation error, comes out of the
  -- gateway under the service's status and message, with the business code that stands for it.
  pub upstream_failure-assign_failure :
      (e : OrderError.Error)
      → OrderError.is_invalid_input e ≡ false
      → upstream_failure f (assignment_answer e)
        ≡ new_http_error
            (assign_failure e).status
            (code_of_assignment e)
            (told_of (assign_failure e).payload)
  unfolding assign_failure infer_business_error_code trim_space to_lower status_code_to_error_code
      lookup text_eq
  upstream_failure-assign_failure OrderError.order_not_found h =
      upstream_failure_lem f json header 404 (text "order not found") refl
  upstream_failure-assign_failure OrderError.courier_not_found h =
      upstream_failure_lem f json header 404 (text "courier not found") refl
  upstream_failure-assign_failure OrderError.order_already_assigned h =
      upstream_failure_lem f json header 409 (text "order already assigned") refl
  upstream_failure-assign_failure OrderError.assignment_not_allowed h =
      upstream_failure_lem f json header 409
        (text "assignment is not allowed for current order status") refl
  upstream_failure-assign_failure (OrderError.invalid_input what) h = cc
  upstream_failure-assign_failure _ h =
      upstream_failure_lem f json header 500 (text "failed to assign order") refl
