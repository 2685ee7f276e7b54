-- ===== src/Metrics/Middleware.antt =====
-- The middleware and the handler of services/order-service/internal/observability/http_metrics.go,
-- which the gateway has as well. The pattern of the matched route, which the server's mux leaves in
-- the request, is part of the state, beside the metrics and the rest `S`; the clock and the JSON of
-- a snapshot are parameters, and a log line is left out.
use trackflow.Prelude.{ℕ, ◌-◌, Option, none, some, not, if◌then◌else◌, List}
use trackflow.Text.{Text, text, text_eq}
use trackflow.Http.{set}
use trackflow.Http.Handling.{
  ResponseWriter, Handler, Outcome, returned, panicked, not_found, content_type,
}
use trackflow.Metrics.{HttpMetrics, Milliseconds, MetricsSnapshot, snapshot, observe, route_pattern}

pub record Serving (S : Type 0) : Type 0 where
  pub metrics : HttpMetrics
  pub pattern : Text
  pub rest : S

-- A draw from the random source of the rest.
unfoldable pub drawn :
    {S : Type 0} → (S → Option (List ℕ) × S) → Serving S → Option (List ℕ) × Serving S
drawn random s = let (bytes, rest) = random s.rest in (bytes, record s { rest = rest })

-- statusRecorder: the writer beside the last status that was written.
unfoldable pub status_recorder : {W : Type 0} → ResponseWriter W → ResponseWriter (W × ℕ)
status_recorder out = record {
  header = λ w. out.header w.0;
  set_header = λ header w. (out.set_header header w.0, w.1);
  write_header = λ n w. (out.write_header n w.0, n);
  write = λ what w. (out.write what w.0, w.1);
}

-- What is read of a request.
pub record Asked (R : Type 0) : Type 0 where
  pub method : R → Text
  pub path : R → Text

module _ {R S : Type 0} (asked : Asked R) (now : S → ℕ × S) where
  unfoldable pub timed : Serving S → ℕ × Serving S
  timed s = let (instant, rest) = now s.rest in (instant, record s { rest = rest })

  unfoldable pub observed : R → ℕ → ℕ → Serving S → Serving S
  observed r status duration s = record s {
    metrics =
        observe
          (record {
            method = asked.method r;
            route = route_pattern s.pattern (asked.path r);
            status = status;
          })
          duration s.metrics;
  }

  -- What follows the next handler, unless that panicked.
  unfoldable pub completed :
      {W : Type 0} → R → ℕ → Outcome × ((W × ℕ) × Serving S) → Outcome × (W × Serving S)
  unfolding timed observed
  completed r started (panicked, ((w, status), s)) = (panicked, (w, s))
  completed r started (returned, ((w, status), s)) =
      let (ended, after) = timed s in (returned, (w, observed r status (ended - started) after))

  unfoldable pub middleware : Option (Handler R (Serving S)) → Handler R (Serving S)
  unfolding timed completed status_recorder not_found
  middleware none W out r (w, s) =
      let (started, begun) = timed s in
      completed r started (not_found (W × ℕ) (status_recorder out) r ((w, 200), begun))
  middleware (some next) W out r (w, s) =
      let (started, begun) = timed s in
      completed r started (next (W × ℕ) (status_recorder out) r ((w, 200), begun))

module _ {R S F : Type 0} (asked : Asked R) (ms : Milliseconds F)
    (encode : MetricsSnapshot ms → Text) where
  unfoldable pub handler : Handler R (Serving S)
  handler W out r (w, s) =
      let header = set (out.header w) content_type (text "application/json; charset=utf-8") in
      let answer = out.write_header 200 (out.set_header header w) in
      if not (text_eq (asked.method r) (text "GET"))
      then (returned, (out.write_header 405 w, s))
      else (returned, (out.write (encode (snapshot ms s.metrics)) answer, s))
