-- ===== src/Tests/Metrics.antt =====
-- The metrics after three requests.
use mathlib.Core.List.{Permᴰ}
use trackflow.Prelude.{ℕ, ◌/◌, refl, ◌≡◌, ◌%◌, ◌^◌, [], ◌∷◌, List, length}
use trackflow.Text.{text, text_eq}
use trackflow.Metrics.Snapshot.{IsAscending, requests_of, snapshot_lem}
use trackflow.Metrics.{
  Milliseconds, MetricAggregate, observe, set_aggregate, key_eq, snapshot, MetricKey,
  new_http_metrics, aggregate_at,
}
use trackflow.Metrics.Totals.{
  Observation, observe_all, durations_of, sum, sum_all, greatest, observe_all_lem,
}

abbrev health : MetricKey
health = record { method = text "GET"; route = text "/health"; status = 200 }

abbrev orders : MetricKey
orders = record { method = text "POST"; route = text "/v1/orders"; status = 201 }

abbrev requests : List Observation
requests =
    record { key = health; duration = 5 }
    ∷ record { key = orders; duration = 90 }
    ∷ record { key = health; duration = 3 }
    ∷ []

observe_all_lem_example :
    let after = observe_all requests new_http_metrics in
    let ds = durations_of health requests in
    let entry = aggregate_at health after.by_key in
    (entry.count % 2 ^ 64 ≡ length ds % 2 ^ 64)
    × (entry.total_latency % 2 ^ 64 ≡ sum ds % 2 ^ 64)
    × (entry.max_latency ≡ greatest 0 ds)
    × (after.total_count % 2 ^ 64 ≡ length requests % 2 ^ 64)
    × (after.total_latency % 2 ^ 64 ≡ sum_all requests % 2 ^ 64)
observe_all_lem_example = observe_all_lem requests health

-- Whole nanoseconds.
abbrev nanos : Milliseconds ℕ
nanos = record { none = 0; latency_ms = λ d. d; divided = λ d n. d / n }

-- The entries in the other order.
abbrev entries : List (MetricKey × MetricAggregate)
entries =
    (orders, record { count = 1; total_latency = 90; max_latency = 90 })
    ∷ (health, record { count = 2; total_latency = 8; max_latency = 5 })
    ∷ []

shuffled : Permᴰ (observe_all requests new_http_metrics).by_key entries
unfolding observe set_aggregate aggregate_at key_eq text_eq
shuffled = Permᴰ.swap refl refl

snapshot_lem_example :
    let m = observe_all requests new_http_metrics in
    let shown = snapshot nanos (record m { by_key = entries }) in
    (shown ≡ snapshot nanos m)
    × IsAscending nanos shown.routes
    × (shown.requests_total % 2 ^ 64 ≡ requests_of nanos shown.routes % 2 ^ 64)
snapshot_lem_example = snapshot_lem nanos requests entries shuffled
