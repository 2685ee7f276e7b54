-- ===== src/Carrier/Worker/Cycle.antt =====
-- A whole cycle of the worker: runOnce in worker.go.
use trackflow.Prelude.{◌≡◌, ℕ, suc, ◌+◌, List, [], ◌∷◌, Result, ok, err, refl, arith, length}
use trackflow.Text.{Text}
use trackflow.Carrier.Model.{StatusUpdate}
use trackflow.Carrier.Service.{last_known_statuses, normalize_batch_size}
use trackflow.Carrier.Service.Fallback.{normalize_batch_size_bounds, take-nil}
use trackflow.Carrier.Worker.{
  reported, fallen, Worker, Report, cycle_failed, fell_back, completed, cycle, run_once, push_all,
  counted, push_update_with_retry, fetch_with_retry,
}

-- Each update in turn is pushed once, with its retries, from the state that the one before left.
pub data Pushed {S : Type 0} (w : Worker S) : List StatusUpdate → S → ℕ → ℕ → S → Type 0 where
  none_left : (st : S) → Pushed w [] st 0 0 st
  synced :
      (u : StatusUpdate) (updates : List StatusUpdate) (st pushed after : S) (good bad : ℕ)
      → push_update_with_retry w u st ≡ (ok tt, pushed)
      → Pushed w updates pushed good bad after
      → Pushed w (u ∷ updates) st (suc good) bad after
  failed :
      (u : StatusUpdate) (updates : List StatusUpdate) (st pushed after : S) (good bad : ℕ)
      (e : Text)
      → push_update_with_retry w u st ≡ (err e, pushed)
      → Pushed w updates pushed good bad after
      → Pushed w (u ∷ updates) st good (suc bad) after

pub data Cycled {S : Type 0} (w : Worker S)
    : Result Text (List StatusUpdate) × (List StatusUpdate × S)
      → Report × (List StatusUpdate × S)
      → Type 0 where
  broken :
      (e : Text) (known : List StatusUpdate) (st : S)
      → known ≡ []
      → Cycled w (err e, (known, st)) (cycle_failed e, (known, st))
  stale :
      (e : Text) (u : StatusUpdate) (rest known : List StatusUpdate) (st : S)
      → last_known_statuses known w.batch_size ≡ u ∷ rest
      → Cycled w (err e, (known, st)) (fell_back (suc (length rest)), (known, st))
  pushed :
      (updates known : List StatusUpdate) (st after : S) (good bad : ℕ)
      → good + bad ≡ length updates
      → Pushed w updates st good bad after
      → Cycled w (ok updates, (known, st)) (completed (length updates) good bad, (known, after))

module _ {S : Type 0} (w : Worker S) where
  push_one :
      (u : StatusUpdate) (updates : List StatusUpdate) (st after : S) (good bad : ℕ)
      (o : Result Text (Unit {0}) × S)
      → push_update_with_retry w u st ≡ o
      → Pushed w updates o.1 good bad after
      → Pushed w (u ∷ updates) st (counted o.0 (good, bad)).0 (counted o.0 (good, bad)).1 after
  unfolding counted
  push_one u updates st after good bad (ok _, next) h rest =
      synced u updates st next after good bad h rest
  push_one u updates st after good bad (err e, next) h rest =
      failed u updates st next after good bad e h rest

  push_all-Pushed :
      (updates : List StatusUpdate) (st : S)
      → Pushed w updates st
          (push_all w updates st).0.0
          (push_all w updates st).0.1
          (push_all w updates st).1
  unfolding push_all
  push_all-Pushed [] st = none_left st
  push_all-Pushed (u ∷ updates) st =
      push_one u updates st _ _ _ (push_update_with_retry w u st) refl
        (push_all-Pushed updates (push_update_with_retry w u st).1)

  Pushed-sum :
      {updates : List StatusUpdate} {st after : S} {good bad : ℕ}
      → Pushed w updates st good bad after
      → good + bad ≡ length updates
  Pushed-sum (none_left st) = refl
  Pushed-sum (synced u updates st next after good bad h rest) = omega (arith, Pushed-sum rest)
  Pushed-sum (failed u updates st next after good bad e h rest) = omega (arith, Pushed-sum rest)

  on_known :
      (e : Text) (known : List StatusUpdate) (st : S) (taken : List StatusUpdate)
      → last_known_statuses known w.batch_size ≡ taken
      → Cycled w (err e, (known, st)) (fallen e taken, (known, st))
  unfolding fallen last_known_statuses
  on_known e known st [] h = broken e known st (
      take-nil (normalize_batch_size w.batch_size) known
        (normalize_batch_size_bounds w.batch_size).0 h)
  on_known e known st (u ∷ rest) h = stale e u rest known st h

  cycle-Cycled :
      (r : Result Text (List StatusUpdate) × (List StatusUpdate × S)) → Cycled w r (cycle w r)
  unfolding cycle reported
  cycle-Cycled (ok updates, (known, st)) =
      let all = push_all-Pushed updates st in pushed updates known st _ _ _ (Pushed-sum all) all
  cycle-Cycled (err e, (known, st)) =
      on_known e known st (last_known_statuses known w.batch_size) refl

  -- A cycle whose fetch succeeded pushes each update fetched, in order, a failed one not stopping
  -- those behind it, and its two counts add up to the number fetched. A cycle whose fetch failed
  -- pushes nothing: it reports how many remembered updates it fell back to, at least one, or,
  -- where none is remembered, the error.
  pub run_once-Cycled :
      (known : List StatusUpdate) (st : S)
      → Cycled w (fetch_with_retry w (known, st)) (run_once w (known, st))
  unfolding run_once
  run_once-Cycled known st = cycle-Cycled (fetch_with_retry w (known, st))
