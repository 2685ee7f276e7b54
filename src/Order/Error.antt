-- ===== src/Order/Error.antt =====
-- The errors of services/order-service/internal/service: the sentinels, validation errors, and
-- errors that other packages return.
use trackflow.Prelude.{◌++◌, Bool, true, false}
use trackflow.Text.{Text, text}

pub data Error : Type 0 where
  repository_not_configured : Error
  database_not_configured : Error
  invalid_input : Text → Error
  order_not_found : Error
  courier_not_found : Error
  order_already_assigned : Error
  assignment_not_allowed : Error
  duplicate_idempotency : Error
  external : Text → Error

-- `err.Error()`.
unfoldable pub message : Error → Text
message repository_not_configured = text "repository is not configured"
message database_not_configured = text "database is not configured"
message (invalid_input what) = text "invalid input: " ++ what
message order_not_found = text "order not found"
message courier_not_found = text "courier not found"
message order_already_assigned = text "order already assigned"
message assignment_not_allowed = text "assignment not allowed"
message duplicate_idempotency = text "duplicate idempotency key"
message (external what) = what

-- errors.Is(err, service.ErrInvalidInput), and so on.
abbrev pub is_invalid_input : Error → Bool
is_invalid_input (invalid_input what) = true
is_invalid_input _ = false

abbrev pub is_order_not_found : Error → Bool
is_order_not_found order_not_found = true
is_order_not_found _ = false

abbrev pub is_courier_not_found : Error → Bool
is_courier_not_found courier_not_found = true
is_courier_not_found _ = false

abbrev pub is_order_already_assigned : Error → Bool
is_order_already_assigned order_already_assigned = true
is_order_already_assigned _ = false

abbrev pub is_assignment_not_allowed : Error → Bool
is_assignment_not_allowed assignment_not_allowed = true
is_assignment_not_allowed _ = false

abbrev pub is_duplicate_idempotency : Error → Bool
is_duplicate_idempotency duplicate_idempotency = true
is_duplicate_idempotency _ = false
