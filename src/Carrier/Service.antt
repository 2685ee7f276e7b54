-- ===== src/Carrier/Service.antt =====
-- services/carrier-sync-service/internal/service/service.go. The carrier's client is an interface
-- of the source; errors are their messages. The state of the service is `lastKnown`, beside the
-- state of the client.
pub mod Fallback
use trackflow.Prelude.{
  ◌≡◌, ℕ, Bool, true, false, List, [], ◌∷◌, Option, none, some, Result, ok, err, ltb, if◌then◌else◌,
  ℤ, pos, negsuc, take, length, ◌==◌,
}
use trackflow.Prelude.Action.{Action, pure, raise, ◌>>=◌, ◌>>◌}
use trackflow.Text.{Text, text}
use trackflow.Carrier.Model.{StatusUpdate}

abbrev default_batch_size : ℕ
default_batch_size = 5

abbrev max_batch_size : ℕ
max_batch_size = 50

abbrev pub status_source_carrier : Text
status_source_carrier = text "carrier"

abbrev pub status_source_last_known : Text
status_source_last_known = text "last_known"

pub record CarrierClient (S : Type 0) : Type 0 where
  pub fetch_status_updates : ℕ → Action S Text (List StatusUpdate)

pub record SyncResult : Type 0 where
  pub updates : List StatusUpdate
  pub status_source : Text
  pub fallback_used : Bool

pub record SyncService (S : Type 0) : Type 0 where
  pub client : Option (CarrierClient S)

abbrev pub no_client : Text
no_client = text "carrier client is not configured"

unfoldable pub normalize_batch_size : ℤ → ℕ
normalize_batch_size (negsuc n) = default_batch_size
normalize_batch_size (pos n) =
    if n == 0 then default_batch_size else (if ltb max_batch_size n then max_batch_size else n)

-- A copy of a slice is the same list.
unfoldable pub last_known_statuses : List StatusUpdate → ℤ → List StatusUpdate
unfolding normalize_batch_size
last_known_statuses last_known batch_size = take (normalize_batch_size batch_size) last_known

unfoldable pub store_last_known : List StatusUpdate → List StatusUpdate → List StatusUpdate
store_last_known [] last_known = last_known
store_last_known (u ∷ updates) last_known = u ∷ updates

-- The fallback on the error of a fetch.
pub from_last_known : List StatusUpdate → Text → Result Text (List StatusUpdate)
from_last_known [] e = err e
from_last_known (u ∷ known) e = ok (u ∷ known)

-- The answer of a sync that fell back.
pub shown : Result Text (List StatusUpdate) → Result Text SyncResult
shown (err e) = err e
shown (ok known) =
    ok record { updates = known; status_source = status_source_last_known; fallback_used = true }

pub result_of : Result Text (List StatusUpdate) → ℤ → List StatusUpdate → Result Text SyncResult
unfolding from_last_known shown
result_of (ok updates) batch_size last_known =
    ok record { updates = updates; status_source = status_source_carrier; fallback_used = false }
result_of (err e) batch_size last_known =
    shown (from_last_known (last_known_statuses last_known batch_size) e)

module _ {S : Type 0} where
  unfoldable pub health : SyncService S → Result Text (Unit {0})
  health s = elim s.client [ none ↦ err no_client | some client ↦ ok tt ]

  -- What SyncOnce does with the client's answer.
  unfoldable pub stored :
      List StatusUpdate
      → Result Text (List StatusUpdate) × S
      → Result Text (List StatusUpdate) × (List StatusUpdate × S)
  stored last_known (ok updates, st) = (ok updates, (store_last_known updates last_known, st))
  stored last_known (err e, st) = (err e, (last_known, st))

  unfoldable pub fetched :
      Option (CarrierClient S) → ℕ → Action (List StatusUpdate × S) Text (List StatusUpdate)
  unfolding stored
  fetched none limit st = (err no_client, st)
  fetched (some client) limit (last_known, st) =
      stored last_known (client.fetch_status_updates limit st)

  unfoldable pub sync_once :
      SyncService S → ℤ → Action (List StatusUpdate × S) Text (List StatusUpdate)
  unfolding fetched
  sync_once s batch_size = fetched s.client (normalize_batch_size batch_size)

  pub fallback :
      ℤ
      → Result Text (List StatusUpdate) × (List StatusUpdate × S)
      → Result Text SyncResult × (List StatusUpdate × S)
  unfolding result_of
  fallback batch_size (r, (last_known, st)) = (result_of r batch_size last_known, (last_known, st))

  unfoldable pub sync_once_with_fallback :
      SyncService S → ℤ → Action (List StatusUpdate × S) Text SyncResult
  unfolding fallback
  sync_once_with_fallback s batch_size st = fallback batch_size (sync_once s batch_size st)
