-- ===== src/Carrier/Mapping.antt =====
-- services/carrier-sync-service/internal/mapping/status_mapper.go
pub mod Squeeze
pub mod Contract
use trackflow.Prelude.{
  ℕ, zero, suc, Bool, ◌&&◌, ◌||◌, List, [], ◌∷◌, ◌++◌, map, length, ◌==◌, if◌then◌else◌, Option,
  none, some, Result, ok, err,
}
use trackflow.Text.{Text, text, trim_space, to_lower, is_empty, lookup, has_part}

abbrev internal_status_created : Text
internal_status_created = text "created"

abbrev internal_status_assigned : Text
internal_status_assigned = text "assigned"

abbrev internal_status_in_transit : Text
internal_status_in_transit = text "in_transit"

abbrev internal_status_delivered : Text
internal_status_delivered = text "delivered"

abbrev internal_status_cancelled : Text
internal_status_cancelled = text "cancelled"

pub data Error : Type 0 where
  empty_status : Error
  unknown_status : Text → Error

external_to_internal_status_map : List (Text × Text)
external_to_internal_status_map =
    (text "created", internal_status_created)
    ∷ (text "new", internal_status_created)
    ∷ (text "registered", internal_status_created)
    ∷ (text "accepted", internal_status_created)
    ∷ (text "confirmed", internal_status_created)
    ∷ (text "processing", internal_status_created)
    ∷ (text "order_received", internal_status_created)
    ∷ (text "shipment_created", internal_status_created)
    ∷ (text "info_received", internal_status_created)
    ∷ (text "pending", internal_status_created)
    ∷ (text "assigned", internal_status_assigned)
    ∷ (text "courier_assigned", internal_status_assigned)
    ∷ (text "picked_up", internal_status_assigned)
    ∷ (text "pickup_completed", internal_status_assigned)
    ∷ (text "collected", internal_status_assigned)
    ∷ (text "ready_for_dispatch", internal_status_assigned)
    ∷ (text "in_transit", internal_status_in_transit)
    ∷ (text "out_for_delivery", internal_status_in_transit)
    ∷ (text "on_the_way", internal_status_in_transit)
    ∷ (text "on_route", internal_status_in_transit)
    ∷ (text "departed_hub", internal_status_in_transit)
    ∷ (text "arrived_hub", internal_status_in_transit)
    ∷ (text "at_sorting_center", internal_status_in_transit)
    ∷ (text "sorting", internal_status_in_transit)
    ∷ (text "delivered", internal_status_delivered)
    ∷ (text "completed", internal_status_delivered)
    ∷ (text "received", internal_status_delivered)
    ∷ (text "done", internal_status_delivered)
    ∷ (text "cancelled", internal_status_cancelled)
    ∷ (text "canceled", internal_status_cancelled)
    ∷ (text "delivery_failed", internal_status_cancelled)
    ∷ (text "undeliverable", internal_status_cancelled)
    ∷ (text "rejected", internal_status_cancelled)
    ∷ (text "returned", internal_status_cancelled)
    ∷ (text "lost", internal_status_cancelled)
    ∷ []

-- One code point under strings.NewReplacer("-", "_", " ", "_").
underscored : ℕ → ℕ
underscored c = if c == b'-' || c == b' ' then b'_' else c

-- strings.ReplaceAll(s, "__", "_").
replace_pairs : Text → Text
replace_pairs [] = []
replace_pairs (c ∷ []) = c ∷ []
replace_pairs (c ∷ d ∷ s) =
    let behind_pair = b'_' ∷ replace_pairs s in
    let behind_one = c ∷ replace_pairs (d ∷ s) in
    if c == b'_' && d == b'_' then behind_pair else behind_one

-- `for strings.Contains(s, "__")`; each round shortens the text, so its length is fuel enough.
pub collapse : ℕ → Text → Text
collapse zero s = s
collapse (suc fuel) s =
    let rest = collapse fuel (replace_pairs s) in if has_part s (text "__") then rest else s

-- strings.Trim(s, "_").
trim_left_underscores : Text → Text
trim_left_underscores [] = []
trim_left_underscores (c ∷ s) = if c == b'_' then trim_left_underscores s else c ∷ s

before_end : ℕ → Text → Text
before_end c [] = if c == b'_' then [] else c ∷ []
before_end c (d ∷ s) = c ∷ d ∷ s

trim_right_underscores : Text → Text
trim_right_underscores [] = []
trim_right_underscores (c ∷ s) = before_end c (trim_right_underscores s)

trim_underscores : Text → Text
trim_underscores s = trim_right_underscores (trim_left_underscores s)

unfoldable pub normalize_status : Text → Text
unfolding underscored collapse replace_pairs trim_underscores trim_left_underscores
    trim_right_underscores before_end has_part
normalize_status status =
    let normalized = map underscored (to_lower (trim_space status)) in
    trim_underscores (collapse (length normalized) normalized)

unfoldable pub map_external_status : Text → Result Error Text
unfolding external_to_internal_status_map
map_external_status external_status =
    let normalized = normalize_status external_status in
    if is_empty normalized
    then err empty_status
    else elim (lookup normalized external_to_internal_status_map) [
      | none ↦ err (unknown_status external_status)
      | some internal_status ↦ ok internal_status
    ]
