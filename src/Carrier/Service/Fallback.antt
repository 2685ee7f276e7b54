-- ===== src/Carrier/Service/Fallback.antt =====
-- What SyncOnceWithFallback answers, and what the service remembers, over a run of calls.
use trackflow.Prelude.{
  ◌≡◌, ℕ, true, false, List, [], ◌∷◌, Option, none, some, Result, ok, err, ℤ, pos, take, refl,
  arith, ◌≤◌, suc, zero,
}
use trackflow.Text.{Text}
use trackflow.Carrier.Model.{StatusUpdate}
use trackflow.Carrier.Service.{
  CarrierClient, SyncResult, SyncService, normalize_batch_size, last_known_statuses,
  store_last_known, sync_once, sync_once_with_fallback, status_source_carrier,
  status_source_last_known, no_client, from_last_known, fallback, fetched, result_of, stored, shown,
}

-- A batch is never empty and never above fifty, and the size is kept from one to fifty.
pub normalize_batch_size_bounds :
    (n : ℤ)
    → (1 ≤ normalize_batch_size n)
      × (normalize_batch_size n ≤ 50)
      × (normalize_batch_size (pos (normalize_batch_size n)) ≡ normalize_batch_size n)
unfolding normalize_batch_size
normalize_batch_size_bounds n = ground arith

-- What the carrier answers, with the state it leaves.
abbrev pub answer :
    {S : Type 0} → Option (CarrierClient S) → ℕ → S → Result Text (List StatusUpdate) × S
answer none limit st = (err no_client, st)
answer (some client) limit st = client.fetch_status_updates limit st

pub data Synced {S : Type 0} (known : List StatusUpdate) (size : ℕ)
    : Result Text (List StatusUpdate) × S
      → Result Text SyncResult × (List StatusUpdate × S)
      → Type 0 where
  fresh :
      (updates : List StatusUpdate) (st : S)
      → Synced known size
          (ok updates, st)
          (
            ok record {
              updates = updates;
              status_source = status_source_carrier;
              fallback_used = false;
            },
            (store_last_known updates known, st),
          )
  fallen_back :
      (e : Text) (u : StatusUpdate) (rest : List StatusUpdate) (st : S)
      → take size known ≡ u ∷ rest
      → Synced known size
          (err e, st)
          (
            ok record {
              updates = u ∷ rest;
              status_source = status_source_last_known;
              fallback_used = true;
            },
            (known, st),
          )
  lost : (e : Text) (st : S) → known ≡ [] → Synced known size (err e, st) (err e, (known, st))

pub take-nil : (n : ℕ) (known : List StatusUpdate) → 1 ≤ n → take n known ≡ [] → known ≡ []
take-nil n [] h e = refl
take-nil zero (u ∷ known) h e = absurd (omega arith)
take-nil (suc n) (u ∷ known) h e = cc

module _ {S : Type 0} (size : ℤ) (known : List StatusUpdate) where
  without_answer :
      (e : Text) (st : S) (taken : List StatusUpdate)
      → take (normalize_batch_size size) known ≡ taken
      → Synced known
          (normalize_batch_size size)
          (err e, st)
          (result_of (err e) size known, (known, st))
  unfolding result_of shown from_last_known last_known_statuses
  without_answer e st [] h = rw h (
      lost e st (take-nil (normalize_batch_size size) known (normalize_batch_size_bounds size).0 h))
  without_answer e st (u ∷ rest) h = rw h (fallen_back e u rest st h)

  with_answer :
      (r : Result Text (List StatusUpdate) × S)
      → Synced known (normalize_batch_size size) r (fallback size (stored known r))
  unfolding fallback stored
  with_answer (ok updates, st) = fresh updates st
  with_answer (err e, st) = without_answer e st (take (normalize_batch_size size) known) refl

  fetched-stored :
      (o : Option (CarrierClient S)) (limit : ℕ) (st : S)
      → fetched o limit (known, st) ≡ stored known (answer o limit st)
  unfolding fetched stored
  fetched-stored none limit st = refl
  fetched-stored (some client) limit st = refl

  -- A sync asks the carrier once, for the normalised number of updates. An answer is returned as
  -- it is, marked as the carrier's, and is remembered unless it is empty. After an error the
  -- result is the beginning of what was remembered, marked so, or, where nothing was, that error;
  -- the memory stays.
  pub sync_once_with_fallback-Synced :
      (s : SyncService S) (st : S)
      → Synced known
          (normalize_batch_size size)
          (answer s.client (normalize_batch_size size) st)
          (sync_once_with_fallback s size (known, st))
  unfolding sync_once_with_fallback sync_once
  sync_once_with_fallback-Synced s st =
      rw (fetched-stored s.client (normalize_batch_size size) st)
        (with_answer (answer s.client (normalize_batch_size size) st))
