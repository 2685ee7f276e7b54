-- ===== src/Metrics.antt =====
-- services/order-service/internal/observability/http_metrics.go, which the other services have as
-- well. Durations are numbers of nanoseconds, which time.Since keeps from being negative; a sum of
-- durations is its pattern of 64 bits. The float64 of milliseconds are a parameter, and the uptime of
-- a snapshot is left out.
pub mod Totals
pub mod Middleware
pub mod Recording
pub mod Answering
pub mod Order
pub mod Coherence
pub mod Snapshot
use trackflow.Prelude.{
  ℕ, Bool, true, false, not, ◌&&◌, List, [], ◌∷◌, ◌==◌, ltb, ◌+◌, ◌%◌, ◌^◌, map, if◌then◌else◌,
  length,
}
use trackflow.Text.{Text, text, text_eq, trim_space, is_empty}

pub record MetricKey : Type 0 where
  pub method : Text
  pub route : Text
  pub status : ℕ

pub record MetricAggregate : Type 0 where
  pub count : ℕ
  pub total_latency : ℕ
  pub max_latency : ℕ

-- The entries of `byKey`, each key once; what stands for a key that is missing is the zero value.
pub record HttpMetrics : Type 0 where
  pub total_count : ℕ
  pub total_latency : ℕ
  pub by_key : List (MetricKey × MetricAggregate)

-- uint64 and the pattern of an int64.
abbrev pub wrapped : ℕ → ℕ
wrapped n = n % 2 ^ 64

abbrev pub zero_aggregate : MetricAggregate
zero_aggregate = record { count = 0; total_latency = 0; max_latency = 0 }

abbrev pub new_http_metrics : HttpMetrics
new_http_metrics = record { total_count = 0; total_latency = 0; by_key = [] }

unfoldable pub key_eq : MetricKey → MetricKey → Bool
key_eq a b = text_eq a.method b.method && text_eq a.route b.route && a.status == b.status

unfoldable pub aggregate_at : MetricKey → List (MetricKey × MetricAggregate) → MetricAggregate
aggregate_at key [] = zero_aggregate
aggregate_at key ((k, agg) ∷ entries) = if key_eq k key then agg else aggregate_at key entries

unfoldable pub set_aggregate :
    MetricKey
    → MetricAggregate
    → List (MetricKey × MetricAggregate)
    → List (MetricKey × MetricAggregate)
set_aggregate key agg [] = (key, agg) ∷ []
set_aggregate key agg ((k, old) ∷ entries) =
    let rest = set_aggregate key agg entries in
    if key_eq k key then (k, agg) ∷ entries else (k, old) ∷ rest

abbrev pub counted : ℕ → MetricAggregate → MetricAggregate
counted duration agg = record {
  count = wrapped (agg.count + 1);
  total_latency = wrapped (agg.total_latency + duration);
  max_latency = if ltb agg.max_latency duration then duration else agg.max_latency;
}

unfoldable pub observe : MetricKey → ℕ → HttpMetrics → HttpMetrics
observe key duration m = record {
  total_count = wrapped (m.total_count + 1);
  total_latency = wrapped (m.total_latency + duration);
  by_key = set_aggregate key (counted duration (aggregate_at key m.by_key)) m.by_key;
}

-- `pattern` is that of the matched route, `path` that of the URL.
unfoldable pub route_pattern : (pattern path : Text) → Text
route_pattern pattern path =
    let matched = trim_space pattern in
    let asked = trim_space path in
    if not (is_empty matched)
    then matched
    else if not (is_empty asked)
    then asked
    else text "unknown"

-- `<` of two strings: the order of their code points is that of their bytes.
pub text_ltb : Text → Text → Bool
text_ltb s [] = false
text_ltb [] (d ∷ t) = true
text_ltb (c ∷ s) (d ∷ t) = let rest = text_ltb s t in if c == d then rest else ltb c d

-- The order of the routes.
unfoldable pub key_ltb : MetricKey → MetricKey → Bool
unfolding text_ltb
key_ltb a b =
    if not (text_eq a.route b.route)
    then text_ltb a.route b.route
    else if not (text_eq a.method b.method)
    then text_ltb a.method b.method
    else ltb a.status b.status

-- float64(duration.Microseconds()) / 1000.0, and the division of two float64.
pub record Milliseconds (F : Type 0) : Type 0 where
  pub none : F
  pub latency_ms : ℕ → F
  pub divided : F → ℕ → F

module _ {F : Type 0} (ms : Milliseconds F) where
  pub record RouteMetric : Type 0 where
    pub key : MetricKey
    pub requests : ℕ
    pub avg_latency_ms : F
    pub max_latency_ms : F

  pub record MetricsSnapshot : Type 0 where
    pub requests_total : ℕ
    pub avg_latency_ms : F
    pub routes : List RouteMetric

  average_latency_ms : (total count : ℕ) → F
  average_latency_ms total count =
      if count == 0 then ms.none else ms.divided (ms.latency_ms total) count

  route_metric : MetricKey × MetricAggregate → RouteMetric
  unfolding average_latency_ms
  route_metric (key, agg) = record {
    key = key;
    requests = agg.count;
    avg_latency_ms = average_latency_ms agg.total_latency agg.count;
    max_latency_ms = ms.latency_ms agg.max_latency;
  }

  insert_route : RouteMetric → List RouteMetric → List RouteMetric
  insert_route r [] = r ∷ []
  insert_route r (s ∷ routes) =
      let rest = insert_route r routes in if key_ltb s.key r.key then s ∷ rest else r ∷ (s ∷ routes)

  -- sort.Slice: keys differ, so the order of the routes is settled.
  sort_routes : List RouteMetric → List RouteMetric
  unfolding insert_route
  sort_routes [] = []
  sort_routes (r ∷ routes) = insert_route r (sort_routes routes)

  unfoldable pub snapshot : HttpMetrics → MetricsSnapshot
  unfolding route_metric average_latency_ms sort_routes
  snapshot m = record {
    requests_total = m.total_count;
    avg_latency_ms = average_latency_ms m.total_latency m.total_count;
    routes = sort_routes (map route_metric m.by_key);
  }
