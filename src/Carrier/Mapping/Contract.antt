-- ===== src/Carrier/Mapping/Contract.antt =====
-- What status_mapper.go hands on, and what services/tracking-service makes of it.
use trackflow.Prelude.{◌≡◌, [], ◌∷◌, List, refl, ok, some, true, Bool, ◌&&◌, arith}
use trackflow.Text.{Text, text_eq, lookup, contains}
use trackflow.Carrier.Mapping.{
  external_to_internal_status_map, map_external_status, normalize_status,
}
use trackflow.Tracking.Status.Lifecycle.{Status, name, label-name, normalize_status-name}
use trackflow.Tracking.Status.{
  status_created, status_assigned, status_in_transit, status_delivered, status_cancelled,
}
use trackflow.Tracking.Service.{checked_status}

-- The values of a map.
all_values : (Text → Bool) → List (Text × Text) → Bool
all_values p [] = true
all_values p ((k, v) ∷ m) = p v && all_values p m

lookup-all_values :
    (p : Text → Bool) (k v : Text) (m : List (Text × Text))
    → all_values p m ≡ true
    → lookup k m ≡ some v
    → p v ≡ true
unfolding all_values lookup
lookup-all_values p k v [] h e = cc
lookup-all_values p k v ((j, w) ∷ m) h e = ground (arith, lookup-all_values p k v m)

is_name : Text → Bool
is_name v =
    contains
      (status_created ∷ status_assigned ∷ status_in_transit ∷ status_delivered ∷ status_cancelled
        ∷ [])
      v

all_names : all_values is_name external_to_internal_status_map ≡ true
unfolding all_values is_name text_eq external_to_internal_status_map contains
all_names = refl

checked_status-name : (t : Status) → checked_status (name t) ≡ ok (name t)
unfolding checked_status
checked_status-name t = rw (normalize_status-name t) refl

map_external_status-looked_up :
    (external status : Text)
    → map_external_status external ≡ ok status
    → lookup (normalize_status external) external_to_internal_status_map ≡ some status
unfolding map_external_status
map_external_status-looked_up external status h = ground arith

-- Whatever a carrier reports, a status that the mapping gives is one that the tracking service's
-- check accepts, and it accepts it as it is.
pub map_external_status-accepted :
    (external status : Text)
    → map_external_status external ≡ ok status
    → checked_status status ≡ ok status
unfolding is_name
map_external_status-accepted external status h =
    let (t, named) = label-name status (
      lookup-all_values is_name (normalize_status external) status external_to_internal_status_map
        all_names (map_external_status-looked_up external status h)) in
    rw named (checked_status-name t)
