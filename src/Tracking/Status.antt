-- ===== src/Tracking/Status.antt =====
-- services/tracking-service/internal/service/state_machine.go
pub mod Lifecycle
use trackflow.Prelude.{
  Bool, true, false, Option, none, some, List, [], ◌∷◌, Result, ok, err, ◌>>=◌, if◌then◌else◌,
}
use trackflow.Text.{Text, text, text_eq, trim_space, to_lower, lookup, contains}
use trackflow.Tracking.Error.{Error, invalid_status, invalid_status_source, transition_not_allowed}

abbrev pub status_created : Text
status_created = text "created"

abbrev pub status_assigned : Text
status_assigned = text "assigned"

abbrev pub status_in_transit : Text
status_in_transit = text "in_transit"

abbrev pub status_delivered : Text
status_delivered = text "delivered"

abbrev pub status_cancelled : Text
status_cancelled = text "cancelled"

abbrev pub source_system : Text
source_system = text "system"

abbrev pub source_courier : Text
source_courier = text "courier"

abbrev pub source_manager : Text
source_manager = text "manager"

abbrev pub source_carrier : Text
source_carrier = text "carrier_sync"

abbrev allowed_transitions : List (Text × List Text)
allowed_transitions =
    (status_created, status_assigned ∷ status_cancelled ∷ [])
    ∷ (status_assigned, status_in_transit ∷ status_cancelled ∷ [])
    ∷ (status_in_transit, status_delivered ∷ [])
    ∷ (status_delivered, [])
    ∷ (status_cancelled, [])
    ∷ []

abbrev allowed_sources : List Text
allowed_sources = source_system ∷ source_courier ∷ source_manager ∷ source_carrier ∷ []

-- The nil map, read where a key is missing, is empty.
abbrev or_empty : Option (List Text) → List Text
or_empty none = []
or_empty (some names) = names

unfoldable pub normalize_status : Text → Result Error Text
unfolding lookup
normalize_status status =
    let normalized = to_lower (trim_space status) in
    elim (lookup normalized allowed_transitions) [
      | none ↦ err (invalid_status status)
      | some _ ↦ ok normalized
    ]

unfoldable pub validate_status_transition : Text → Text → Result Error (Unit {0})
unfolding lookup contains
validate_status_transition current_status next_status = do
  current ← normalize_status current_status
  next ← normalize_status next_status
  if contains (or_empty (lookup current allowed_transitions)) next
      then ok tt
      else err (transition_not_allowed current next)

unfoldable pub normalize_status_source : Text → Result Error Text
unfolding contains
normalize_status_source source =
    let normalized = to_lower (trim_space source) in
    if contains allowed_sources normalized
    then ok normalized
    else err (invalid_status_source source)
