-- ===== src/Carrier/Mock/Accepted.antt =====
-- What the mock carrier yields, on its way to tracking-service.
use Prim.Native.Nat.{min, max}
use trackflow.Prelude.{
  ◌≡◌, ◌<◌, ℕ, zero, suc, ◌+◌, ◌%◌, ok, refl, arith, length, true, All, none, ap,
}
use trackflow.Text.{to_lower, trim_space, lookup, text_eq}
use trackflow.Text.Uuid.{is_uuid}
use trackflow.Carrier.Model.{StatusUpdate}
use trackflow.Carrier.Mapping.{normalize_status, map_external_status}
use trackflow.Tracking.Service.{checked_status}
use trackflow.Carrier.Mock.{
  item_at, mock_order_ids, mock_statuses, mock_update, mock_updates, clamped, Surroundings,
  fetch_status_updates,
}
use trackflow.Carrier.Mapping.Contract.{map_external_status-accepted}

-- An update that the mapping and the checks of tracking-service accept, with its status as it is.
abbrev pub IsAccepted : StatusUpdate → Type 0
IsAccepted u =
    (is_uuid u.order_id ≡ true)
    × (map_external_status u.external_status ≡ ok u.external_status)
    × (checked_status u.external_status ≡ ok u.external_status)

ids : (n : ℕ) → n < 5 → is_uuid (item_at mock_order_ids n) ≡ true
unfolding item_at is_uuid
ids zero h = refl
ids (suc zero) h = refl
ids (suc (suc zero)) h = refl
ids (suc (suc (suc zero))) h = refl
ids (suc (suc (suc (suc zero)))) h = refl
ids (suc (suc (suc (suc (suc n))))) h = absurd (omega arith)

statuses :
    (n : ℕ) → n < 4 → map_external_status (item_at mock_statuses n) ≡ ok (item_at mock_statuses n)
unfolding item_at map_external_status normalize_status to_lower trim_space lookup text_eq
statuses zero h = refl
statuses (suc zero) h = refl
statuses (suc (suc zero)) h = refl
statuses (suc (suc (suc zero))) h = refl
statuses (suc (suc (suc (suc n)))) h = absurd (omega arith)

mock_update-IsAccepted : (now cursor : ℕ) → IsAccepted (mock_update now cursor)
unfolding mock_update
mock_update-IsAccepted now cursor =
    let mapped = statuses (cursor % 4) (omega arith) in
    (ids (cursor % 5) (omega arith), mapped, map_external_status-accepted _ _ mapped)

mock_updates-IsAccepted :
    (now cursor rounds : ℕ)
    → let (updates, after) = mock_updates now cursor rounds in
      (length updates ≡ rounds) × (after ≡ cursor + rounds) × All IsAccepted updates
unfolding mock_updates
mock_updates-IsAccepted now cursor zero = (refl, omega arith, tt)
mock_updates-IsAccepted now cursor (suc rounds) =
    let (counted, moved, accepted) = mock_updates-IsAccepted now (suc cursor) rounds in
    (ap suc counted, omega arith, (mock_update-IsAccepted now cursor, accepted))

clamped_lem : (limit : ℕ) → clamped limit ≡ min 20 (max 1 limit)
unfolding clamped
clamped_lem limit = ground arith

-- A fetch from the mock carrier whose context has not ended yields as many updates as the limit
-- says, but at least one and at most 20, and moves the cursor on by as many; of each update the order id is a UUID, and the
-- mapping and the check of tracking-service both hand its status on as it is.
pub fetch_status_updates-IsAccepted :
    {X : Type 0} (around : Surroundings X) (limit cursor : ℕ) (x : X)
    → around.cancelled x ≡ none
    → let (now, later) = around.now x in
      let count = min 20 (max 1 limit) in
      let updates = (mock_updates now cursor count).0 in
      (fetch_status_updates around limit (cursor, x) ≡ (ok updates, (cursor + count, later)))
      × (length updates ≡ count)
      × All IsAccepted updates
unfolding fetch_status_updates
fetch_status_updates-IsAccepted around limit cursor x live =
    let count = min 20 (max 1 limit) in
    let (counted, moved, accepted) = mock_updates-IsAccepted (around.now x).0 cursor count in
    (rw (live, fetch_status_updates, clamped_lem limit, moved) refl, counted, accepted)
