-- ===== src/Carrier/Backoff/Bounds.antt =====
-- How long the worker waits: backoffDelay in worker.go.
use trackflow.Prelude.{◌≡◌, ℕ, zero, suc, ◌+◌, ◌-◌, ◌*◌, ◌^◌, ◌≤◌, ℤ, pos, negsuc, arith}
use Prim.Native.Nat.{min}
use trackflow.Carrier.Backoff.{base_of, max_of, doubled, base_delay}

doubled_le : (highest delay rounds : ℕ) → delay ≤ highest → doubled highest delay rounds ≤ highest
unfolding doubled
doubled_le highest delay zero h = h
doubled_le highest delay (suc rounds) h = ground (arith, doubled_le highest (2 * delay) rounds)

le_doubled : (highest delay rounds : ℕ) → delay ≤ highest → delay ≤ doubled highest delay rounds
unfolding doubled
le_doubled highest delay zero h = omega arith
le_doubled highest delay (suc rounds) h = ground (arith, le_doubled highest (2 * delay) rounds)

pow_two : (n : ℕ) → 2 ^ suc n ≡ 2 ^ n + 2 ^ n
pow_two n = grind arith

pow-suc : (rounds delay : ℕ) → 2 ^ suc rounds * delay ≡ 2 * (2 ^ rounds * delay)
pow-suc rounds delay = grind (arith, pow_two rounds)

pow-twice : (rounds delay : ℕ) → 2 ^ rounds * (2 * delay) ≡ 2 * (2 ^ rounds * delay)
pow-twice rounds delay = grind arith

le_pow : (rounds delay : ℕ) → delay ≤ 2 ^ rounds * delay
le_pow zero delay = omega arith
le_pow (suc rounds) delay = omega (arith, le_pow rounds delay, pow-suc rounds delay)

doubled_even :
    (half delay rounds : ℕ)
    → delay ≤ 2 * half
    → doubled (2 * half) delay rounds ≡ min (2 * half) (2 ^ rounds * delay)
unfolding doubled
doubled_even half delay zero h = omega arith
doubled_even half delay (suc rounds) h = ground (
  arith,
  doubled_even half (2 * delay) rounds,
  pow-suc rounds delay,
  pow-twice rounds delay,
  le_pow rounds delay,
)

base_le_max : (base : ℕ) (highest : ℤ) → base ≤ max_of base highest
unfolding max_of
base_le_max base (pos n) = ground arith
base_le_max base (negsuc n) = omega arith

-- Where the maximum is even and not below the base, the delay of attempt n before the jitter is
-- the base doubled n - 1 times, and never above the maximum.
pub base_delay_lem :
    (base_backoff : ℤ) (half attempt : ℕ)
    → base_of base_backoff ≤ 2 * half
    → base_delay base_backoff (pos (2 * half)) attempt
      ≡ min (2 * half) (2 ^ (attempt - 1) * base_of base_backoff)
unfolding base_delay max_of
base_delay_lem base_backoff half attempt h =
    ground (arith, doubled_even half (base_of base_backoff) (attempt - 1) h)

-- Before the jitter, a delay is never below the base nor above the maximum.
pub base_delay_bounds :
    (base_backoff max_backoff : ℤ) (attempt : ℕ)
    → (base_of base_backoff ≤ base_delay base_backoff max_backoff attempt)
      × (base_delay base_backoff max_backoff attempt ≤ max_of (base_of base_backoff) max_backoff)
unfolding base_delay
base_delay_bounds base_backoff max_backoff attempt =
    let base = base_of base_backoff in
    let highest = max_of base max_backoff in
    (
      le_doubled highest base (attempt - 1) (base_le_max base max_backoff),
      doubled_le highest base (attempt - 1) (base_le_max base max_backoff),
    )
