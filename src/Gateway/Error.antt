-- ===== src/Gateway/Error.antt =====
-- services/api-gateway/internal/gateway/errors.go. The error that an HTTPError wraps is only
-- logged, and is left out.
use trackflow.Prelude.{ℕ, ◌++◌, Option, none, some, if◌then◌else◌}
use trackflow.Text.{Text, text, is_empty}

pub record HttpError : Type 0 where
  pub status : ℕ
  pub code : Text
  pub message : Text

abbrev pub new_http_error : ℕ → Text → Text → HttpError
new_http_error status code message = record { status = status; code = code; message = message }

unfoldable pub method_not_allowed : Text → HttpError
method_not_allowed method =
    new_http_error 405 (text "method_not_allowed")
      (text "method " ++ (method ++ text " is not allowed"))

-- An error of a handler: an HTTPError, or another.
pub data HandlerError : Type 0 where
  http : HttpError → HandlerError
  other : HandlerError

-- What is written: the status, the code and message, and the request id unless it is empty, in the
-- body and in the headers.
pub record ErrorReply : Type 0 where
  pub status : ℕ
  pub code : Text
  pub message : Text
  pub request_id : Option Text

-- The values that Handle starts from, or those of an HTTPError.
abbrev reported : HandlerError → HttpError
reported (http e) = e
reported other = new_http_error 500 (text "internal_error") (text "internal server error")

unfoldable pub handle : Text → HandlerError → ErrorReply
handle request_id e =
    let http_err = reported e in
    record {
      status = http_err.status;
      code = http_err.code;
      message = http_err.message;
      request_id = if is_empty request_id then none else some request_id;
    }
