-- ===== src/Carrier/Worker/Attempts.antt =====
-- What withRetry in worker.go does with the attempts that it is given.
use trackflow.Prelude.{
  ◌≡◌, ℕ, zero, suc, ◌+◌, ◌-◌, ◌<◌, ◌≤◌, Option, none, some, Result, ok, err, refl, arith, ℤ, pos,
  negsuc,
}
use trackflow.Prelude.Action.{Action, proceed, ◌>>◌}
use trackflow.Text.{Text}
use trackflow.Carrier.Backoff.{Retry}
use trackflow.Carrier.Worker.{
  Context, pause, attempts, attempts_of, with_retry, last_attempt, attempt_or, or_else,
}

attempts_of_bounds : (n : ℤ) → 1 ≤ attempts_of n
unfolding attempts_of
attempts_of_bounds (pos n) = ground arith
attempts_of_bounds (negsuc n) = omega arith

module _ {S A : Type 0} (ctx : Context S) (r : Retry S) (fn : Action S Text A) where
  -- So many attempts failed one after the other, each followed by a whole wait.
  pub data Failed (s : S) : ℕ → S → Type 0 where
    start : Failed s 0 s
    again :
        (n : ℕ) (before after woken : S) (e : Text)
        → Failed s n before
        → ctx.cancelled before ≡ none
        → fn before ≡ (err e, after)
        → pause ctx r (suc n) after ≡ (ok tt, woken)
        → Failed s (suc n) woken

  pub data Retried (s : S) (max : ℕ) : Result Text A × S → Type 0 where
    succeeded :
        (n : ℕ) (before after : S) (a : A)
        → n < max
        → Failed s n before
        → ctx.cancelled before ≡ none
        → fn before ≡ (ok a, after)
        → Retried s max (ok a, after)
    exhausted :
        (n : ℕ) (before after : S) (e : Text)
        → suc n ≡ max
        → Failed s n before
        → ctx.cancelled before ≡ none
        → fn before ≡ (err e, after)
        → Retried s max (err e, after)
    stopped :
        (n : ℕ) (before : S) (e : Text)
        → n < max
        → Failed s n before
        → ctx.cancelled before ≡ some e
        → Retried s max (err e, before)
    woken_early :
        (n : ℕ) (before after woken : S) (e why : Text)
        → suc n < max
        → Failed s n before
        → ctx.cancelled before ≡ none
        → fn before ≡ (err e, after)
        → pause ctx r (suc n) after ≡ (err why, woken)
        → Retried s max (err why, woken)

  module _ (s : S) (max : ℕ) where
    on_last :
        (n : ℕ) (before : S) (c : Option Text) (o : Result Text A × S)
        → suc n ≡ max
        → Failed s n before
        → ctx.cancelled before ≡ c
        → fn before ≡ o
        → Retried s max (last_attempt c fn before)
    unfolding last_attempt
    on_last n before (some e) o h failed c f = stopped n before e (omega arith) failed c
    on_last n before none (ok a, after) h failed c f =
        rw f (succeeded n before after a (omega arith) failed c f)
    on_last n before none (err e, after) h failed c f =
        rw f (exhausted n before after e h failed c f)

    after_pause :
        (n : ℕ) (before after : S) (e : Text) (k : Action S Text A) (p : Result Text (Unit {0}) × S)
        → suc n < max
        → Failed s n before
        → ctx.cancelled before ≡ none
        → fn before ≡ (err e, after)
        → pause ctx r (suc n) after ≡ p
        → ((woken : S) → Failed s (suc n) woken → Retried s max (k woken))
        → Retried s max (proceed p λ _. k)
    after_pause n before after e k (ok _, woken) h failed c f p more =
        more woken (again n before after woken e failed c f p)
    after_pause n before after e k (err why, woken) h failed c f p more =
        woken_early n before after woken e why h failed c f p

    on_more :
        (n : ℕ) (before : S) (c : Option Text) (o : Result Text A × S) (k : Action S Text A)
        → suc n < max
        → Failed s n before
        → ctx.cancelled before ≡ c
        → fn before ≡ o
        → ((woken : S) → Failed s (suc n) woken → Retried s max (k woken))
        → Retried s max (attempt_or c fn (pause ctx r (suc n) >> k) before)
    unfolding attempt_or or_else
    on_more n before (some e) o k h failed c f more = stopped n before e (omega arith) failed c
    on_more n before none (ok a, after) k h failed c f more =
        rw f (succeeded n before after a (omega arith) failed c f)
    on_more n before none (err e, after) k h failed c f more =
        rw f (after_pause n before after e k (pause ctx r (suc n) after) h failed c f refl more)

    attempts-Retried :
        (left n : ℕ) (before : S)
        → n + suc left ≡ max
        → Failed s n before
        → Retried s max (attempts ctx r fn left (suc n) before)
    unfolding attempts
    attempts-Retried zero n before h failed =
        on_last n before (ctx.cancelled before) (fn before) (omega arith) failed refl refl
    attempts-Retried (suc left) n before h failed =
        on_more n before (ctx.cancelled before) (fn before) (attempts ctx r fn left (suc (suc n)))
          (omega arith) failed refl refl
          λ woken more. attempts-Retried left (suc n) woken (omega arith) more

  -- A call with retries ends, and in one of four ways: an attempt succeeded, after fewer failures
  -- than the maximum; as many attempts as the maximum failed, and the error is the last one's; the
  -- context had ended before an attempt; or a wait was cut short. Every failed attempt before the
  -- last was followed by a whole wait, and no attempt is made beyond the maximum.
  pub with_retry-Retried : (s : S) → Retried s (attempts_of r.max_attempts) (with_retry ctx r fn s)
  unfolding with_retry
  with_retry-Retried s =
      attempts-Retried s (attempts_of r.max_attempts) (attempts_of r.max_attempts - 1) 0 s
        (omega (arith, attempts_of_bounds r.max_attempts)) start
