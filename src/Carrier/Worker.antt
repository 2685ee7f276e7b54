-- ===== src/Carrier/Worker.antt =====
-- services/carrier-sync-service/internal/worker/worker.go: the cycle that fetches statuses and
-- pushes them to the tracking service, with retries. The context is what `cancelled` reads of the
-- state and what ends a sleep early; the log lines of a cycle are its result.
pub mod Attempts
pub mod Cycle
pub mod Keeping
pub mod Loop
use trackflow.Prelude.{
  ◌≡◌, ℕ, zero, suc, ◌-◌, ◌+◌, Bool, true, false, List, [], ◌∷◌, Option, none, some, Result, ok,
  err, if◌then◌else◌, ◌==◌, ℤ, pos, negsuc, length, refl, Float,
}
use trackflow.Prelude.Action.{Action, pure, raise, ◌>>=◌, ◌>>◌}
use trackflow.Text.{Text}
use trackflow.Carrier.Model.{StatusUpdate}
use trackflow.Carrier.Backoff.{Retry, backoff_delay}
use trackflow.Carrier.Service.{SyncService, sync_once, last_known_statuses, from_last_known}

pub record TrackingStatusClient (S : Type 0) : Type 0 where
  pub push_status_update : StatusUpdate → Action S Text (Unit {0})

-- `ctx.Err()` and `sleepFn`.
pub record Context (S : Type 0) : Type 0 where
  pub cancelled : S → Option Text
  pub sleep : ℕ → Action S Text (Unit {0})

-- At least one attempt.
unfoldable pub attempts_of : ℤ → ℕ
attempts_of (negsuc n) = 1
attempts_of (pos n) = if n == 0 then 1 else n

-- A wait for the delay of the attempt, which may draw a random number.
pub pause : {S : Type 0} → Context S → Retry S → ℕ → Action S Text (Unit {0})
pause ctx r attempt st = let (delay, drawn) = backoff_delay r attempt st in ctx.sleep delay drawn

module _ {S A : Type 0} where
  -- The last attempt, unless the context has ended.
  pub last_attempt : Option Text → Action S Text A → Action S Text A
  last_attempt (some e) fn st = (err e, st)
  last_attempt none fn st = fn st

  pub or_else : Result Text A × S → Action S Text A → Result Text A × S
  or_else (ok a, st) again = (ok a, st)
  or_else (err e, st) again = again st

  -- An attempt with others after it.
  pub attempt_or : Option Text → Action S Text A → Action S Text A → Action S Text A
  unfolding or_else
  attempt_or (some e) fn again st = (err e, st)
  attempt_or none fn again st = or_else (fn st) again

  -- The loop of withRetry, with the attempts left after this one. What `fn` assigns in the source
  -- is its value here.
  pub attempts : Context S → Retry S → Action S Text A → ℕ → ℕ → Action S Text A
  unfolding last_attempt attempt_or
  attempts ctx r fn zero attempt st = last_attempt (ctx.cancelled st) fn st
  attempts ctx r fn (suc left) attempt st =
      attempt_or (ctx.cancelled st) fn (pause ctx r attempt >> attempts ctx r fn left (suc attempt))
        st

  unfoldable pub with_retry : Context S → Retry S → Action S Text A → Action S Text A
  unfolding attempts
  with_retry ctx r fn = attempts ctx r fn (attempts_of r.max_attempts - 1) 1

-- What a cycle logs.
pub data Report : Type 0 where
  cycle_failed : Text → Report
  fell_back : ℕ → Report
  completed : ℕ → ℕ → ℕ → Report

pub record Worker (S : Type 0) : Type 0 where
  pub svc : SyncService S
  pub tracking_client : TrackingStatusClient S
  pub batch_size : ℤ
  pub retry : Retry S
  pub context : Context S

pub counted : Result Text (Unit {0}) → ℕ × ℕ → ℕ × ℕ
counted (ok _) (synced, failed) = (suc synced, failed)
counted (err e) (synced, failed) = (synced, suc failed)

-- What a cycle logs on the error of its fetch.
pub fallen : Text → List StatusUpdate → Report
fallen e [] = cycle_failed e
fallen e (u ∷ known) = fell_back (length (u ∷ known))

module _ {S : Type 0} where
  -- The context and the random numbers beside the service's memory.
  abbrev pub context_beside : {K : Type 0} → Context S → Context (K × S)
  context_beside ctx = record {
    cancelled = λ st. ctx.cancelled st.1;
    sleep = λ d st. ((ctx.sleep d st.1).0, (st.0, (ctx.sleep d st.1).1));
  }

  abbrev pub draw_beside : {K : Type 0} → Option (S → Float × S) → Option (K × S → Float × (K × S))
  draw_beside none = none
  draw_beside (some draw) = some (λ st. ((draw st.1).0, (st.0, (draw st.1).1)))

  abbrev pub retry_beside : {K : Type 0} → Retry S → Retry (K × S)
  retry_beside r = record {
    max_attempts = r.max_attempts;
    base_backoff = r.base_backoff;
    max_backoff = r.max_backoff;
    jitter_factor = r.jitter_factor;
    random = draw_beside r.random;
    rounding = r.rounding;
  }

  unfoldable pub fetch_with_retry :
      Worker S → Action (List StatusUpdate × S) Text (List StatusUpdate)
  unfolding with_retry
  fetch_with_retry w =
      with_retry (context_beside w.context) (retry_beside w.retry) (sync_once w.svc w.batch_size)

  unfoldable pub push_update_with_retry : Worker S → StatusUpdate → Action S Text (Unit {0})
  unfolding with_retry
  push_update_with_retry w update =
      with_retry w.context w.retry (w.tracking_client.push_status_update update)

  -- The loop over the updates, with the numbers of those synced and failed.
  pub push_all : Worker S → List StatusUpdate → S → (ℕ × ℕ) × S
  unfolding counted
  push_all w [] st = ((0, 0), st)
  push_all w (u ∷ updates) st =
      let (r, pushed) = push_update_with_retry w u st in
      let (counts, after) = push_all w updates pushed in (counted r counts, after)

  pub reported : Worker S → List StatusUpdate → S → Report × S
  unfolding push_all
  reported w updates st =
      let ((synced, failed), after) = push_all w updates st in
      (completed (length updates) synced failed, after)

  -- The rest of a cycle, on what the fetch gave.
  pub cycle :
      Worker S
      → Result Text (List StatusUpdate) × (List StatusUpdate × S)
      → Report × (List StatusUpdate × S)
  unfolding reported fallen
  cycle w (ok updates, (known, st)) =
      let (report, after) = reported w updates st in (report, (known, after))
  cycle w (err e, (known, st)) = (fallen e (last_known_statuses known w.batch_size), (known, st))

  unfoldable pub run_once : Worker S → List StatusUpdate × S → Report × (List StatusUpdate × S)
  unfolding cycle fetch_with_retry
  run_once w st = cycle w (fetch_with_retry w st)
