-- ===== src/Tests/Carrier.antt =====
-- services/carrier-sync-service with a carrier that answers every second call.
use trackflow.Prelude.{
  ◌≡◌, ◌+◌, ◌≤◌, ◌*◌, ◌^◌, ◌-◌, ◌%◌, ◌/◌, zero, ◌==◌, ℕ, suc, false, [], ◌∷◌, none, some, ok, err,
  ℤ, pos, negsuc, refl, if◌then◌else◌, arith, pos_part, length, List, All, Float, float_one, leb,
  ap, Bool-cases, inl, inr,
}
use Prim.Native.Nat.{min}
use trackflow.Prelude.Action.{Action}
use trackflow.Text.{Text, text, text_eq, has_part, trim_space, to_lower, lookup}
use trackflow.Carrier.Model.{StatusUpdate}
use trackflow.Carrier.Mapping.{map_external_status, collapse, normalize_status}
use trackflow.Carrier.Mapping.Squeeze.{squeeze, collapse_lem}
use trackflow.Carrier.Service.{
  CarrierClient, SyncService, normalize_batch_size, sync_once_with_fallback,
}
use trackflow.Carrier.Service.Fallback.{Synced, answer, sync_once_with_fallback-Synced}
use trackflow.Carrier.Backoff.{
  Retry, Rounding, jitter_range, unit_clamped, base_of, max_of, base_delay, backoff_delay,
}
use trackflow.Carrier.Backoff.Bounds.{base_delay_lem}
use trackflow.Carrier.Backoff.Jitter.{IsRounding, Within, backoff_delay_bounds}
use native.Mathlib.Nat.{div-le_of_le-mul, mul_comm}
use trackflow.Carrier.Worker.{Context, Worker, attempts_of, with_retry, fetch_with_retry, run_once}
use trackflow.Carrier.Client.{TrackingHttpClient, push_status_update}
use trackflow.Carrier.Client.Push.{Push, push_status_update-Push}
use trackflow.Carrier.Worker.Attempts.{Retried, with_retry-Retried}
use trackflow.Carrier.Worker.Loop.{Event, tick, done, start}
use trackflow.Carrier.Worker.Loop.Memory.{IsFull, is_failure, ticks, start-remembers}
use trackflow.Carrier.Mock.{Surroundings, mock_updates, fetch_status_updates}
use trackflow.Carrier.Mock.Accepted.{IsAccepted, fetch_status_updates-IsAccepted}
use trackflow.Carrier.Worker.Cycle.{Cycled, run_once-Cycled}

abbrev update : StatusUpdate
update = record { order_id = text "o-1"; external_status = text "Picked Up"; updated_at = 3 }

-- The state counts the calls.
abbrev client : CarrierClient ℕ
client = record {
  fetch_status_updates = λ limit n.
      if n % 2 == 0 then (err (text "timeout"), suc n) else (ok (update ∷ update ∷ []), suc n);
}

abbrev service : SyncService ℕ
service = record { client = some client }

abbrev minus : ℕ → ℤ
minus zero = pos 0
minus (suc n) = negsuc n

-- Products that are cut off at the unit.
product : Float → Float → Float
product (pos a) (pos b) = pos (a * b / float_one)
product (pos a) (negsuc b) = minus (a * suc b / float_one)
product (negsuc a) (pos b) = minus (b * suc a / float_one)
product (negsuc a) (negsuc b) = pos (suc a * suc b / float_one)

difference : Float → Float → Float
difference (pos a) (pos b) = if leb b a then pos (a - b) else minus (b - a)
difference a b = a

abbrev rounding : Rounding
rounding = record {
  of_duration = λ d. pos (d * float_one);
  multiply = product;
  subtract = difference;
}

-- A factor of a fifth, and a draw at the lower end.
abbrev retry : Retry ℕ
retry = record {
  max_attempts = pos 3;
  base_backoff = pos 200;
  max_backoff = pos 3_000;
  jitter_factor = pos (float_one / 5);
  random = some (λ n. (pos 0, n));
  rounding = rounding;
}

abbrev context : Context ℕ
context = record { cancelled = λ n. none; sleep = λ d n. (ok tt, n) }

abbrev pushing : Action ℕ Text (Unit {0})
pushing n = if n % 2 == 0 then (err (text "refused"), suc n) else (ok tt, suc n)

abbrev worker : Worker ℕ
worker = record {
  svc = service;
  tracking_client = record { push_status_update = λ u. pushing };
  batch_size = pos 5;
  retry = retry;
  context = context;
}

with_retry-Retried_example :
    Retried context retry pushing 0
      (attempts_of retry.max_attempts)
      (with_retry context retry pushing 0)
with_retry-Retried_example = with_retry-Retried context retry pushing 0

run_once-Cycled_example : Cycled worker (fetch_with_retry worker ([], 0)) (run_once worker ([], 0))
run_once-Cycled_example = run_once-Cycled worker [] 0

sync_once_with_fallback-Synced_example :
    Synced
      (update ∷ [])
      (normalize_batch_size (pos 1))
      (answer service.client (normalize_batch_size (pos 1)) 0)
      (sync_once_with_fallback service (pos 1) (update ∷ [], 0))
sync_once_with_fallback-Synced_example =
    sync_once_with_fallback-Synced (pos 1) (update ∷ []) service 0

base_delay_lem_example :
    base_delay (pos 200) (pos (2 * 1_500)) 4 ≡ min (2 * 1_500) (2 ^ (4 - 1) * base_of (pos 200))
unfolding base_of
base_delay_lem_example = base_delay_lem (pos 200) 1_500 4 (omega arith)

minus-Within : (j n : ℕ) → n ≤ j → Within j (minus n)
minus-Within j zero h = (omega arith, omega arith)
minus-Within j (suc n) h = (omega arith, omega arith)

scaled_by : (n b : ℕ) → n ≤ float_one → b * n / float_one ≤ b
scaled_by n b h = div-le_of_le-mul float_one {m = b * n} {n = b} (grind (arith, h))

rounding-IsRounding : IsRounding rounding
unfolding product difference
rounding-IsRounding = record {
  exact = λ d small. refl;
  commutes = commuted;
  signed = λ a b. refl;
  scaled = scaled_down;
  lowered = λ y h. elim (Bool-cases (leb float_one y)) [
    | inl great ↦ rw great (ground arith, omega arith)
    | inr less ↦ rw less (minus-Within float_one (float_one - y) (omega arith))
  ];
}
  where
    commuted : (a b : Float) → product a b ≡ product b a
    commuted (pos a) (pos b) = ap (λ n. pos (n / float_one)) (grind arith)
    commuted (pos a) (negsuc b) = refl
    commuted (negsuc a) (pos b) = refl
    commuted (negsuc a) (negsuc b) = ap (λ n. pos (n / float_one)) (grind arith)

    scaled_down : (z : Float) (b : ℕ) → Within float_one z → Within b (product z (pos b))
    scaled_down (pos n) b (above, below) =
        let cut = scaled_by n b above in (rw (mul_comm n b) cut, omega arith)
    scaled_down (negsuc n) b (above, below) = minus-Within b _ (scaled_by (suc n) b below)

small : max_of (base_of (pos 200)) (pos 3_000) ≤ 2 ^ 53
unfolding max_of base_of
small = omega arith

backoff_delay_bounds_example :
    let d = base_delay retry.base_backoff retry.max_backoff 2 in
    let range = jitter_range retry.rounding d (unit_clamped retry.jitter_factor) in
    (d ≤ (backoff_delay retry 2 0).0 + pos_part range)
    × ((backoff_delay retry 2 0).0 ≤ d + pos_part range)
    × (pos_part range ≤ d)
    × ((backoff_delay retry 2 0).0 ≤ 2 * max_of (base_of retry.base_backoff) retry.max_backoff)
backoff_delay_bounds_example = backoff_delay_bounds retry rounding-IsRounding 2 0 small

collapse_lem_example :
    let s = text "a____b__" in
    (collapse 8 s ≡ squeeze s) × (has_part (collapse 8 s) (text "__") ≡ false)
collapse_lem_example = collapse_lem (text "a____b__")

-- A tracking service that answers 200 and counts its requests.
abbrev tracking : TrackingHttpClient ℕ
tracking = record {
  base_url = text "http://tracking";
  http = record {
    readable = λ url. none;
    send = λ req n. (ok record { status_code = 200; body = [] }, suc n);
  };
  rfc3339 = λ at. text "2026-01-01T00:00:00Z";
  status_text = λ code. text "status";
  error_field = λ body. none;
}

push_run : push_status_update tracking update 4 ≡ (ok tt, 5)
unfolding push_status_update map_external_status normalize_status text_eq trim_space to_lower lookup
push_run = refl

push_status_update-Push_example : Push tracking update 4 (push_status_update tracking update 4)
push_status_update-Push_example = push_status_update-Push tracking update 4

abbrev events : List (Event ℕ)
events = tick [] (λ n. n) ∷ tick ((update ∷ []) ∷ []) (λ n. suc n) ∷ done ∷ []

start-remembers_example :
    let (reports, last) = start (some worker) events (update ∷ [], 0) in
    (length reports ≡ suc (ticks worker events))
    × All (λ report. is_failure report ≡ false) reports
    × IsFull last.0
start-remembers_example = start-remembers worker events (update ∷ []) 0 λ e. cc

abbrev around : Surroundings ℕ
around = record { cancelled = λ n. none; now = λ n. (1_000_000_000_000 + n, suc n) }

fetch_status_updates-IsAccepted_example :
    let (now, later) = around.now 0 in
    let updates = (mock_updates now 7 2).0 in
    (fetch_status_updates around 2 (7, 0) ≡ (ok updates, (7 + 2, later)))
    × (length updates ≡ 2)
    × All IsAccepted updates
fetch_status_updates-IsAccepted_example = fetch_status_updates-IsAccepted around 2 7 0 refl
