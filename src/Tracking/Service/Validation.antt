-- ===== src/Tracking/Service/Validation.antt =====
-- The checks of services/tracking-service/internal/service/service.go: what they let through.
use trackflow.Prelude.{ℤ, pos, ◌≤ℤ◌, ◌≡◌, err, arith, List, pos_part, take, take_all, negsuc, true}
use trackflow.Text.{Text}
use trackflow.Tracking.Service.{
  normalize_limit, slice_timeline, checked_id, checked_status, checked_source,
}
use trackflow.Tracking.Error.{Error, is_invalid_input}

-- The limit of a timeline lies between 1 and 200 whatever the caller asks for, and normalizing it
-- once more changes nothing.
pub normalize_limit_bounds :
    (limit : ℤ)
    → (pos 1 ≤ℤ normalize_limit limit)
      × (normalize_limit limit ≤ℤ pos 200)
      × (normalize_limit (normalize_limit limit) ≡ normalize_limit limit)
unfolding normalize_limit
normalize_limit_bounds (pos n) = ground arith
normalize_limit_bounds limit = ground arith

-- A slice has the asked length at most, and is all of a timeline that is no longer.
pub slice_timeline_lem {ℓ} :
    {A : Type ℓ} (items : List A) (limit : ℤ)
    → pos 1 ≤ℤ limit
    → slice_timeline items limit ≡ take (pos_part limit) items
unfolding slice_timeline
slice_timeline_lem items (pos n) h = ground (arith, take_all n items)
slice_timeline_lem items (negsuc n) h = absurd (omega arith)

-- The errors of the checks are validation errors.
pub checked_id-invalid : (x : Text) {e : Error} → checked_id x ≡ err e → is_invalid_input e ≡ true
unfolding checked_id
checked_id-invalid x h = ground arith

pub checked_status-invalid :
    (x : Text) {e : Error} → checked_status x ≡ err e → is_invalid_input e ≡ true
unfolding checked_status
checked_status-invalid x h = ground arith

pub checked_source-invalid :
    (x : Text) {e : Error} → checked_source x ≡ err e → is_invalid_input e ≡ true
unfolding checked_source
checked_source-invalid x h = ground arith
