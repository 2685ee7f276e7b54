-- ===== src/Metrics/Totals.antt =====
-- What the metrics hold after a sequence of requests.
use trackflow.Prelude.{
  ℕ, ◌≡◌, List, [], ◌∷◌, ◌+◌, ◌%◌, ◌^◌, ltb, length, arith, refl, true, if◌then◌else◌, ap, ◌∙◌, sym,
  Bool-cases, inl, inr, ==_iff,
}
use trackflow.Text.Laws.{text_eq_iff, text_eq_refl}
use trackflow.Metrics.{
  MetricKey, MetricAggregate, HttpMetrics, new_http_metrics, key_eq, aggregate_at, set_aggregate,
  counted, observe,
}

-- A request that was answered.
pub record Observation : Type 0 where
  pub key : MetricKey
  pub duration : ℕ

abbrev pub observe_all : List Observation → HttpMetrics → HttpMetrics
observe_all [] m = m
observe_all (o ∷ os) m = observe_all os (observe o.key o.duration m)

-- The durations of the requests of a key, their sum and the greatest.
abbrev pub durations_of : MetricKey → List Observation → List ℕ
durations_of key [] = []
durations_of key (o ∷ os) =
    let rest = durations_of key os in if key_eq o.key key then o.duration ∷ rest else rest

abbrev pub sum : List ℕ → ℕ
sum [] = 0
sum (d ∷ ds) = d + sum ds

abbrev pub sum_all : List Observation → ℕ
sum_all [] = 0
sum_all (o ∷ os) = o.duration + sum_all os

abbrev pub greatest : ℕ → List ℕ → ℕ
greatest m [] = m
greatest m (d ∷ ds) = greatest (if ltb m d then d else m) ds

pub key_eq_iff : (a b : MetricKey) → key_eq a b ≡ true → a ≡ b
unfolding key_eq
key_eq_iff a b h =
    ground
      (arith, text_eq_iff a.method b.method, text_eq_iff a.route b.route, ==_iff a.status b.status)

key_eq_refl : (a : MetricKey) → key_eq a a ≡ true
unfolding key_eq
key_eq_refl a =
    ground (arith, text_eq_refl a.method, text_eq_refl a.route, ==_iff a.status a.status)

-- Equal keys have the same answers.
same_left : (a b c : MetricKey) → key_eq a b ≡ true → key_eq a c ≡ key_eq b c
same_left a b c h = ap (λ k. key_eq k c) (key_eq_iff a b h)

same_right : (a b c : MetricKey) → key_eq b c ≡ true → key_eq a c ≡ key_eq a b
same_right a b c h = ap (key_eq a) (sym (key_eq_iff b c h))

-- Reading behind a write.
aggregate_at-set :
    (key other : MetricKey) (agg : MetricAggregate) (entries : List (MetricKey × MetricAggregate))
    → aggregate_at other (set_aggregate key agg entries)
      ≡ (if key_eq key other then agg else aggregate_at other entries)
unfolding aggregate_at set_aggregate
aggregate_at-set key other agg [] = refl
aggregate_at-set key other agg ((k, old) ∷ entries) =
    let later = aggregate_at-set key other agg entries in
    elim (Bool-cases (key_eq k key)) [
      | inl found ↦ elim (Bool-cases (key_eq key other)) [
        | inl same ↦ rw (found, same_left k key other found, same) refl
        | inr different ↦ rw (found, same_left k key other found, different) refl
      ]
      | inr passed ↦ elim (Bool-cases (key_eq key other)) [
        | inl same ↦ rw (passed, same_right k key other same, passed, same) (rw same at later)
        | inr different ↦ rw (passed, different) (rw (rw different at later) refl)
      ]
    ]

aggregate_at-observe :
    (key : MetricKey) (duration : ℕ) (m : HttpMetrics) (other : MetricKey)
    → aggregate_at other (observe key duration m).by_key ≡ (
        if key_eq key other
        then counted duration (aggregate_at other m.by_key)
        else aggregate_at other m.by_key)
unfolding observe
aggregate_at-observe key duration m other = elim (Bool-cases (key_eq key other)) [
  | inl same ↦
      rw (aggregate_at-set key other (counted duration (aggregate_at key m.by_key)) m.by_key, same)
        (rw (key_eq_iff key other same) refl)
  | inr different ↦
      rw
        (
          aggregate_at-set key other (counted duration (aggregate_at key m.by_key)) m.by_key,
          different,
        )
        refl
]

-- The entry of a key after some requests.
aggregate_at-observe_all :
    (os : List Observation) (m : HttpMetrics) (key : MetricKey)
    → let ds = durations_of key os in
      let before = aggregate_at key m.by_key in
      let after = aggregate_at key (observe_all os m).by_key in
      (after.count % 2 ^ 64 ≡ (before.count + length ds) % 2 ^ 64)
      × (after.total_latency % 2 ^ 64 ≡ (before.total_latency + sum ds) % 2 ^ 64)
      × (after.max_latency ≡ greatest before.max_latency ds)
aggregate_at-observe_all [] m key = (omega arith, omega arith, refl)
aggregate_at-observe_all (o ∷ os) m key =
    let later = aggregate_at-observe_all os (observe o.key o.duration m) key in
    let written = aggregate_at-observe o.key o.duration m key in
    elim (Bool-cases (key_eq o.key key)) [
      | inl same ↦ rw same (
          let given = rw same at written in
          (
            (rw given at later.0) ∙ omega arith,
            (rw given at later.1) ∙ omega arith,
            rw given at later.2,
          ))
      | inr other ↦ rw other (rw (rw other at written) at later)
    ]

totals :
    (os : List Observation) (m : HttpMetrics)
    → let after = observe_all os m in
      (after.total_count % 2 ^ 64 ≡ (m.total_count + length os) % 2 ^ 64)
      × (after.total_latency % 2 ^ 64 ≡ (m.total_latency + sum_all os) % 2 ^ 64)
unfolding observe
totals [] m = (omega arith, omega arith)
totals (o ∷ os) m = let later = totals os (observe o.key o.duration m) in (omega arith, omega arith)

-- After any requests the metrics hold, up to the 64 bits of their numbers: of each key the number
-- of its requests and the sum of their durations, and of all keys the number and the sum of all;
-- and of each key the greatest duration.
pub observe_all_lem :
    (os : List Observation) (key : MetricKey)
    → let after = observe_all os new_http_metrics in
      let ds = durations_of key os in
      let entry = aggregate_at key after.by_key in
      (entry.count % 2 ^ 64 ≡ length ds % 2 ^ 64)
      × (entry.total_latency % 2 ^ 64 ≡ sum ds % 2 ^ 64)
      × (entry.max_latency ≡ greatest 0 ds)
      × (after.total_count % 2 ^ 64 ≡ length os % 2 ^ 64)
      × (after.total_latency % 2 ^ 64 ≡ sum_all os % 2 ^ 64)
unfolding aggregate_at
observe_all_lem os key =
    let (count, total, max) = aggregate_at-observe_all os new_http_metrics key in
    let (all_count, all_total) = totals os new_http_metrics in
    (omega arith, omega arith, max, omega arith, omega arith)
