-- ===== src/Carrier/Backoff.antt =====
-- The delays of services/carrier-sync-service/internal/worker/worker.go. A duration is a number of
-- nanoseconds. The loop multiplies only below half of the maximum, so it cannot overflow. A
-- float64 is a finite value in units of 2^-1074; how its operations round is a parameter.
pub mod Bounds
pub mod Jitter
use trackflow.Prelude.{
  ◌≡◌, ℕ, zero, suc, ◌+◌, ◌-◌, ◌*◌, ◌/◌, ◌^◌, ◌≤◌, ◌<◌, Bool, true, false, Option, none, some, leb,
  ltb, ltbℤ, Float, float_one, ◌==◌, if◌then◌else◌, ℤ, pos, negsuc, refl, sym, ap, arith, inl, inr,
}
use Prim.Native.Nat.{min}

-- 200 ms and 3 s.
abbrev pub default_retry_base_backoff : ℕ
default_retry_base_backoff = 200_000_000

abbrev pub default_retry_max_backoff : ℕ
default_retry_max_backoff = 3_000_000_000

-- The conversion of a duration to float64, and the rounded product and difference.
pub record Rounding : Type 0 where
  pub of_duration : ℕ → Float
  pub multiply : Float → Float → Float
  pub subtract : Float → Float → Float

-- The fields of the worker that the delays read. `random` is randFloat64, which may be nil.
pub record Retry (S : Type 0) : Type 0 where
  pub max_attempts : ℤ
  pub base_backoff : ℤ
  pub max_backoff : ℤ
  pub jitter_factor : Float
  pub random : Option (S → Float × S)
  pub rounding : Rounding

unfoldable pub base_of : ℤ → ℕ
base_of (negsuc n) = default_retry_base_backoff
base_of (pos n) = if n == 0 then default_retry_base_backoff else n

unfoldable pub max_of : ℕ → ℤ → ℕ
max_of base (negsuc n) = base
max_of base (pos n) = if ltb n base then base else n

-- `for i := 1; i < attempt; i++`, with the rounds that are left.
unfoldable pub doubled : ℕ → ℕ → ℕ → ℕ
doubled highest delay zero = delay
doubled highest delay (suc rounds) =
    let rest = doubled highest (2 * delay) rounds in
    if leb (highest / 2) delay then highest else (if ltb highest (2 * delay) then highest else rest)

-- The delay before the jitter.
unfoldable pub base_delay : ℤ → ℤ → ℕ → ℕ
unfolding base_of max_of doubled
base_delay base_backoff max_backoff attempt =
    let base = base_of base_backoff in doubled (max_of base max_backoff) base (attempt - 1)

-- `delay + delta`, never below 0.
pub moved : ℕ → ℤ → ℕ
moved delay (pos n) = delay + n
moved delay (negsuc n) = delay - suc n

-- A value that is set to 0 below it and to 1 above it.
unfoldable pub unit_clamped : Float → Float
unit_clamped x =
    if ltbℤ x (pos 0) then pos 0 else if ltbℤ (pos float_one) x then pos float_one else x

pub is_zero : Float → Bool
is_zero (pos n) = n == 0
is_zero (negsuc n) = false

opposite : ℕ → ℤ
opposite zero = pos 0
opposite (suc n) = negsuc n

-- time.Duration of a float64, which cuts off at the point.
unfoldable pub to_duration : Float → ℤ
unfolding opposite
to_duration (pos n) = pos (n / float_one)
to_duration (negsuc n) = opposite (suc n / float_one)

-- `time.Duration(float64(delay) * jitterFactor)`.
unfoldable pub jitter_range : Rounding → ℕ → Float → ℤ
jitter_range f delay jitter_factor = to_duration (f.multiply (f.of_duration delay) jitter_factor)

-- `time.Duration((randValue*2 - 1) * float64(jitterRange))`.
unfoldable pub jitter_delta : Rounding → ℕ → Float → ℤ
jitter_delta f range rand_value =
    let doubled_value = f.multiply rand_value (pos (2 * float_one)) in
    to_duration (f.multiply (f.subtract doubled_value (pos float_one)) (f.of_duration range))

-- The value that is drawn, 0.5 where there is nothing to draw from.
drawn_value : {S : Type 0} → Option (S → Float × S) → S → Float × S
drawn_value none st = (pos (float_one / 2), st)
drawn_value (some random) st = random st

module _ {S : Type 0} where
  unfoldable pub jittered : Retry S → ℕ → ℤ → S → ℕ × S
  unfolding moved drawn_value
  jittered r delay (negsuc n) st = (delay, st)
  jittered r delay (pos n) st =
      let (value, drawn) = drawn_value r.random st in
      if n == 0
      then (delay, st)
      else (moved delay (jitter_delta r.rounding n (unit_clamped value)), drawn)

  unfoldable pub backoff_delay : Retry S → ℕ → S → ℕ × S
  unfolding jittered is_zero
  backoff_delay r attempt st =
      let delay = base_delay r.base_backoff r.max_backoff attempt in
      let jitter_factor = unit_clamped r.jitter_factor in
      if is_zero jitter_factor
      then (delay, st)
      else jittered r delay (jitter_range r.rounding delay jitter_factor) st
