-- ===== src/Carrier/Worker/Loop/Memory.antt =====
-- The memory of the statuses over the cycles of a worker.
use trackflow.Prelude.{
  ◌≡◌, ◌≢◌, ℕ, suc, List, [], ◌∷◌, Result, ok, err, refl, arith, length, Bool, true, false, All,
  some, Bool-cases, inl, inr, ap, ℤ, Option-cases, negsuc, pos,
}
use trackflow.Text.{Text}
use trackflow.Carrier.Model.{StatusUpdate}
use trackflow.Carrier.Backoff.{
  backoff_delay, jittered, base_delay, unit_clamped, is_zero, jitter_range,
}
use trackflow.Carrier.Service.{
  last_known_statuses, normalize_batch_size, store_last_known, sync_once, fetched, stored,
}
use trackflow.Carrier.Service.Fallback.{normalize_batch_size_bounds, take-nil}
use trackflow.Carrier.Worker.{
  reported, fallen, Worker, Report, cycle_failed, fell_back, completed, cycle, run_once,
  fetch_with_retry, pause, context_beside, retry_beside,
}
use trackflow.Carrier.Worker.Loop.{Event, tick, done, store_all, loop, start}
use trackflow.Carrier.Worker.Keeping.{with_retry_keeps}

-- Something is remembered.
abbrev pub IsFull : List StatusUpdate → Type 0
IsFull known = known ≢ []

abbrev pub is_failure : Report → Bool
is_failure (cycle_failed e) = true
is_failure (fell_back n) = false
is_failure (completed n good bad) = false

store_last_known-IsFull :
    (updates known : List StatusUpdate) → IsFull known → IsFull (store_last_known updates known)
unfolding store_last_known
store_last_known-IsFull [] known full = full
store_last_known-IsFull (u ∷ updates) known full = λ e. cc

store_all-IsFull :
    (others : List (List StatusUpdate)) (known : List StatusUpdate)
    → IsFull known
    → IsFull (store_all others known)
unfolding store_all
store_all-IsFull [] known full = full
store_all-IsFull (updates ∷ others) known full =
    store_all-IsFull others _ (store_last_known-IsFull updates known full)

-- The memory beside the rest of the state.
abbrev IsFullIn : {S : Type 0} → List StatusUpdate × S → Type 0
IsFullIn (known, st) = IsFull known

module _ {S : Type 0} (w : Worker S) where
  stored-IsFull :
      (known : List StatusUpdate) (o : Result Text (List StatusUpdate) × S)
      → IsFull known
      → IsFullIn (stored known o).1
  unfolding stored
  stored-IsFull known (ok updates, st) full = store_last_known-IsFull updates known full
  stored-IsFull known (err e, st) full = full

  sync_once-IsFull :
      (st : List StatusUpdate × S) → IsFullIn st → IsFullIn (sync_once w.svc w.batch_size st).1
  unfolding sync_once fetched
  sync_once-IsFull (known, st) full = elim (Option-cases w.svc.client) [
    | inl absent ↦ rw absent full
    | inr (client, there) ↦ rw there (stored-IsFull known _ full)
  ]

  jittered-known :
      (delay : ℕ) (range : ℤ) (st : List StatusUpdate × S)
      → (jittered (retry_beside w.retry) delay range st).1.0 ≡ st.0
  unfolding jittered
  jittered-known delay (negsuc n) st = refl
  jittered-known delay (pos n) st = elim (Option-cases w.retry.random) [
    | inl absent ↦ rw absent (ground arith)
    | inr (draw, there) ↦ rw there (ground arith)
  ]

  backoff_delay-known :
      (attempt : ℕ) (st : List StatusUpdate × S)
      → (backoff_delay (retry_beside w.retry) attempt st).1.0 ≡ st.0
  unfolding backoff_delay
  backoff_delay-known attempt st =
      let delay = base_delay w.retry.base_backoff w.retry.max_backoff attempt in
      let factor = unit_clamped w.retry.jitter_factor in
      elim (Bool-cases (is_zero factor)) [
        | inl plain ↦ rw plain refl
        | inr random ↦
            rw random (jittered-known delay (jitter_range w.retry.rounding delay factor) st)
      ]

  pause-known :
      (attempt : ℕ) (st : List StatusUpdate × S)
      → (pause (context_beside w.context) (retry_beside w.retry) attempt st).1.0 ≡ st.0
  unfolding pause
  pause-known attempt st = backoff_delay-known attempt st

  fetch_with_retry-IsFull :
      (st : List StatusUpdate × S) → IsFullIn st → IsFullIn (fetch_with_retry w st).1
  unfolding fetch_with_retry
  fetch_with_retry-IsFull =
      with_retry_keeps IsFullIn (context_beside w.context) (retry_beside w.retry)
        (sync_once w.svc w.batch_size) sync_once-IsFull
        λ attempt st full. rw (pause-known attempt st) full

  taken-IsFull :
      (known : List StatusUpdate) → IsFull known → IsFull (last_known_statuses known w.batch_size)
  unfolding last_known_statuses
  taken-IsFull known full = λ e. full (
      take-nil (normalize_batch_size w.batch_size) known
        (normalize_batch_size_bounds w.batch_size).0 e)

  fallen-works :
      (e : Text) (taken : List StatusUpdate) → IsFull taken → is_failure (fallen e taken) ≡ false
  unfolding fallen
  fallen-works e [] full = absurd (full refl)
  fallen-works e (u ∷ taken) full = refl

  -- A cycle that had something remembered has it still, and has not failed.
  Remembers : Report × (List StatusUpdate × S) → Type 0
  Remembers (report, st) = (is_failure report ≡ false) × IsFullIn st

  cycle-Remembers :
      (r : Result Text (List StatusUpdate) × (List StatusUpdate × S))
      → IsFullIn r.1
      → Remembers (cycle w r)
  unfolding cycle reported Remembers
  cycle-Remembers (ok updates, (known, st)) full = (refl, full)
  cycle-Remembers (err e, (known, st)) full = (fallen-works e _ (taken-IsFull known full), full)

  run_once-Remembers : (st : List StatusUpdate × S) → IsFullIn st → Remembers (run_once w st)
  unfolding run_once
  run_once-Remembers st full =
      cycle-Remembers (fetch_with_retry w st) (fetch_with_retry-IsFull st full)

  -- The ticks before the context is done.
  abbrev pub ticks : List (Event S) → ℕ
  ticks [] = 0
  ticks (done ∷ events) = 0
  ticks (tick others meanwhile ∷ events) = suc (ticks events)

  loop-Remembers :
      (events : List (Event S)) (st : List StatusUpdate × S)
      → IsFullIn st
      → let (reports, last) = loop w events st in
        (length reports ≡ ticks events)
        × All (λ report. is_failure report ≡ false) reports
        × IsFullIn last
  unfolding loop Remembers
  loop-Remembers [] st full = (refl, tt, full)
  loop-Remembers (done ∷ events) st full = (refl, tt, full)
  loop-Remembers (tick others meanwhile ∷ events) (known, st) full =
      let (works, still) =
        run_once-Remembers (store_all others known, meanwhile st)
          (store_all-IsFull others known full) in
      let (counted, all_work, last) = loop-Remembers events _ still in
      (ap suc counted, (works, all_work), last)

  -- A worker that starts with something remembered runs one cycle at once and one at every tick
  -- until its context is done; whatever the carrier answers, none of them fails for want of
  -- statuses, and something stays remembered.
  pub start-remembers :
      (events : List (Event S)) (known : List StatusUpdate) (st : S)
      → IsFull known
      → let (reports, last) = start (some w) events (known, st) in
        (length reports ≡ suc (ticks events))
        × All (λ report. is_failure report ≡ false) reports
        × IsFull last.0
  unfolding start Remembers
  start-remembers events known st full =
      let (works, still) = run_once-Remembers (known, st) full in
      let (counted, all_work, last) = loop-Remembers events _ still in
      (ap suc counted, (works, all_work), last)
