-- ===== src/Tracking/Error.antt =====
-- The errors of services/tracking-service/internal/service: the sentinels, what `fmt.Errorf` wraps
-- round them, and errors that other packages return.
use trackflow.Prelude.{◌++◌, Bool, true, false}
use trackflow.Text.{Text, text}

pub data Error : Type 0 where
  repository_not_configured : Error
  database_not_configured : Error
  invalid_input : Text → Error
  invalid_status : Text → Error
  invalid_status_source : Text → Error
  transition_not_allowed : Text → Text → Error
  order_not_found : Error
  external : Text → Error

-- `err.Error()`.
unfoldable pub message : Error → Text
message repository_not_configured = text "repository is not configured"
message database_not_configured = text "database is not configured"
message (invalid_input what) = text "invalid input: " ++ what
message (invalid_status status) = text "invalid status: " ++ status
message (invalid_status_source source) = text "invalid status source: " ++ source
message (transition_not_allowed current next) =
    text "status transition is not allowed: " ++ (current ++ (text " -> " ++ next))
message order_not_found = text "order not found"
message (external what) = what

-- errors.Is(err, service.ErrInvalidInput), and so on.
abbrev pub is_invalid_input : Error → Bool
is_invalid_input (invalid_input what) = true
is_invalid_input _ = false

abbrev pub is_order_not_found : Error → Bool
is_order_not_found order_not_found = true
is_order_not_found _ = false

abbrev pub is_transition_not_allowed : Error → Bool
is_transition_not_allowed (transition_not_allowed current next) = true
is_transition_not_allowed _ = false
