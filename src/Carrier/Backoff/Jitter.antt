-- ===== src/Carrier/Backoff/Jitter.antt =====
-- How far the jitter of backoffDelay in worker.go moves a delay.
use Prim.Native.Nat.{ℕ}
use native.Mathlib.Nat.{div-le_of_le-mul}
use trackflow.Prelude.{
  ◌≡◌, zero, suc, ◌+◌, ◌*◌, ◌/◌, ◌^◌, ◌≤◌, ℤ, pos, negsuc, arith, pos_part, neg_part, Float,
  float_one, refl,
}
use trackflow.Carrier.Backoff.{
  Retry, Rounding, base_of, max_of, base_delay, backoff_delay, jittered, moved, unit_clamped,
  to_duration, opposite, jitter_range, jitter_delta, drawn_value,
}
use trackflow.Carrier.Backoff.Bounds.{base_delay_bounds}

-- At most n, and at least -n.
abbrev pub Within : ℕ → ℤ → Type 0
Within n z = (pos_part z ≤ n) × (neg_part z ≤ n)

-- What IEEE 754 says of the operations: whole numbers up to 2^53 are converted exactly, products
-- commute, a product of values that are not negative is not negative, a factor from -1 to 1 does not
-- make a value greater, and one subtracted from a value from 0 to 2 gives one from -1 to 1.
pub record IsRounding (f : Rounding) : Type 0 where
  pub exact : (d : ℕ) → d ≤ 2 ^ 53 → f.of_duration d ≡ pos (d * float_one)
  pub commutes : (a b : Float) → f.multiply a b ≡ f.multiply b a
  pub signed : (a b : ℕ) → neg_part (f.multiply (pos a) (pos b)) ≡ 0
  pub scaled : (z : Float) (b : ℕ) → Within float_one z → Within b (f.multiply z (pos b))
  pub lowered : (y : ℕ) → y ≤ 2 * float_one → Within float_one (f.subtract (pos y) (pos float_one))

unit_clamped-within :
    (x : Float) → (neg_part (unit_clamped x) ≡ 0) × (pos_part (unit_clamped x) ≤ float_one)
unfolding unit_clamped
unit_clamped-within (pos n) = ground arith
unit_clamped-within (negsuc n) = ground arith

opposite-Within : (j n : ℕ) → n ≤ j → Within j (opposite n)
unfolding opposite
opposite-Within j zero h = (omega arith, omega arith)
opposite-Within j (suc n) h = (omega arith, omega arith)

to_duration-Within : (j : ℕ) (z : Float) → Within (j * float_one) z → Within j (to_duration z)
unfolding to_duration
to_duration-Within j (pos n) (above, below) =
    let cut = div-le_of_le-mul float_one {m = n} {n = j} (omega arith) in (cut, omega arith)
to_duration-Within j (negsuc n) (above, below) =
    opposite-Within j (suc n / float_one)
      (div-le_of_le-mul float_one {m = suc n} {n = j} (omega arith))

to_duration-signed : (z : Float) → neg_part z ≡ 0 → neg_part (to_duration z) ≡ 0
unfolding to_duration
to_duration-signed (pos n) h = refl
to_duration-signed (negsuc n) h = absurd (omega arith)

module _ (f : Rounding) (sound : IsRounding f) where
  range-within :
      (d n : ℕ)
      → d ≤ 2 ^ 53
      → n ≤ float_one
      → (neg_part (jitter_range f d (pos n)) ≡ 0) × (pos_part (jitter_range f d (pos n)) ≤ d)
  unfolding jitter_range
  range-within d n small least =
      let scaled = sound.scaled (pos n) (d * float_one) (least, omega arith) in
      rw (sound.exact d small) (
        to_duration-signed _ (sound.signed (d * float_one) n),
        rw (sound.commutes (pos (d * float_one)) (pos n)) (to_duration-Within d _ scaled).0,
      )

  clamped_range-within :
      (d : ℕ) (z : Float)
      → d ≤ 2 ^ 53
      → (neg_part z ≡ 0) × (pos_part z ≤ float_one)
      → (neg_part (jitter_range f d z) ≡ 0) × (pos_part (jitter_range f d z) ≤ d)
  clamped_range-within d (pos n) small (signed, least) = range-within d n small least
  clamped_range-within d (negsuc n) small (signed, least) = absurd (omega arith)

  lowered-Within :
      (y : Float)
      → neg_part y ≡ 0
      → pos_part y ≤ 2 * float_one
      → Within float_one (f.subtract y (pos float_one))
  lowered-Within (pos y) signed least = sound.lowered y least
  lowered-Within (negsuc y) signed least = absurd (omega arith)

  delta-Within :
      (range : ℕ) (z : Float)
      → range ≤ 2 ^ 53
      → (neg_part z ≡ 0) × (pos_part z ≤ float_one)
      → Within range (jitter_delta f range z)
  unfolding jitter_delta
  delta-Within range (pos n) small (signed, least) =
      let twice = sound.scaled (pos n) (2 * float_one) (least, omega arith) in
      let lowered =
        lowered-Within (f.multiply (pos n) (pos (2 * float_one))) (sound.signed n (2 * float_one))
          twice.0 in
      rw (sound.exact range small)
        (to_duration-Within range _ (sound.scaled _ (range * float_one) lowered))
  delta-Within range (negsuc n) small (signed, least) = absurd (omega arith)

moved_bounds : (d j : ℕ) (z : ℤ) → j ≤ d → Within j z → (d ≤ moved d z + j) × (moved d z ≤ d + j)
unfolding moved
moved_bounds d j (pos n) narrow (above, below) = ground arith
moved_bounds d j (negsuc n) narrow (above, below) = ground arith

module _ {S : Type 0} (r : Retry S) (sound : IsRounding r.rounding) where
  jittered_bounds :
      (d : ℕ) (range : ℤ) (st : S)
      → d ≤ 2 ^ 53
      → pos_part range ≤ d
      → (d ≤ (jittered r d range st).0 + pos_part range)
        × ((jittered r d range st).0 ≤ d + pos_part range)
  unfolding jittered
  jittered_bounds d (negsuc n) st small narrow = ground arith
  jittered_bounds d (pos n) st small narrow =
      let value = (drawn_value r.random st).0 in
      let delta = jitter_delta r.rounding n (unit_clamped value) in
      ground (
        arith,
        moved_bounds d n delta narrow (
            delta-Within r.rounding sound n (unit_clamped value) (omega arith)
              (unit_clamped-within value)),
      )

  -- The wait before an attempt differs from the delay before the jitter by at most the range of the
  -- jitter, whatever the factor and whatever is drawn; the range is at most that delay, and the wait
  -- at most twice the maximum. The maximum is at most 2^53 nanoseconds, which is 104 days.
  pub backoff_delay_bounds :
      (attempt : ℕ) (st : S)
      → max_of (base_of r.base_backoff) r.max_backoff ≤ 2 ^ 53
      → let d = base_delay r.base_backoff r.max_backoff attempt in
        let range = jitter_range r.rounding d (unit_clamped r.jitter_factor) in
        (d ≤ (backoff_delay r attempt st).0 + pos_part range)
        × ((backoff_delay r attempt st).0 ≤ d + pos_part range)
        × (pos_part range ≤ d)
        × ((backoff_delay r attempt st).0 ≤ 2 * max_of (base_of r.base_backoff) r.max_backoff)
  unfolding backoff_delay
  backoff_delay_bounds attempt st small =
      let d = base_delay r.base_backoff r.max_backoff attempt in
      let factor = unit_clamped r.jitter_factor in
      let range = jitter_range r.rounding d factor in
      let (least, most) = base_delay_bounds r.base_backoff r.max_backoff attempt in
      let narrow =
        (clamped_range-within r.rounding sound d factor (omega arith)
          (unit_clamped-within r.jitter_factor)).1 in
      let (above, below) = jittered_bounds d range st (omega arith) narrow in ground arith
