-- ===== src/Carrier/Worker/Keeping.antt =====
-- What withRetry of worker.go keeps of the state.
use trackflow.Prelude.{ℕ, zero, suc, Result, ok, err, Option, none, some}
use trackflow.Prelude.Action.{Action, ◌>>◌, proceed}
use trackflow.Text.{Text}
use trackflow.Carrier.Backoff.{Retry}
use trackflow.Carrier.Worker.{
  attempts, last_attempt, attempt_or, or_else, pause, Context, with_retry,
}

-- What an attempt and a wait keep, all attempts keep.
module _ {S A : Type 0} (P : S → Type 0) (ctx : Context S) (r : Retry S) (fn : Action S Text A)
    (kept : (st : S) → P st → P (fn st).1)
    (paused : (attempt : ℕ) (st : S) → P st → P (pause ctx r attempt st).1) where
  last_attempt_keeps : (ended : Option Text) (st : S) → P st → P (last_attempt ended fn st).1
  unfolding last_attempt
  last_attempt_keeps none st p = kept st p
  last_attempt_keeps (some e) st p = p

  proceed_keeps :
      {B : Type 0} (o : Result Text B × S) (next : B → Action S Text A)
      → P o.1
      → ((b : B) (st : S) → P st → P (next b st).1)
      → P (proceed o next).1
  proceed_keeps (ok b, st) next p h = h b st p
  proceed_keeps (err e, st) next p h = p

  or_else_keeps :
      (o : Result Text A × S) (again : Action S Text A)
      → P o.1
      → ((st : S) → P st → P (again st).1)
      → P (or_else o again).1
  unfolding or_else
  or_else_keeps (ok a, st) again p h = p
  or_else_keeps (err e, st) again p h = h st p

  attempt_or_keeps :
      (ended : Option Text) (again : Action S Text A) (st : S)
      → P st
      → ((after : S) → P after → P (again after).1)
      → P (attempt_or ended fn again st).1
  unfolding attempt_or
  attempt_or_keeps none again st p h = or_else_keeps (fn st) again (kept st p) h
  attempt_or_keeps (some e) again st p h = p

  attempts_keep : (left attempt : ℕ) (st : S) → P st → P (attempts ctx r fn left attempt st).1
  unfolding attempts
  attempts_keep zero attempt st p = last_attempt_keeps (ctx.cancelled st) st p
  attempts_keep (suc left) attempt st p =
      attempt_or_keeps (ctx.cancelled st)
        (pause ctx r attempt >> attempts ctx r fn left (suc attempt)) st p
        λ after q.
          proceed_keeps (pause ctx r attempt after) (λ _. attempts ctx r fn left (suc attempt))
            (paused attempt after q) λ b last. attempts_keep left (suc attempt) last

  pub with_retry_keeps : (st : S) → P st → P (with_retry ctx r fn st).1
  unfolding with_retry
  with_retry_keeps = attempts_keep _ 1
