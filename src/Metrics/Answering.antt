-- ===== src/Metrics/Answering.antt =====
-- Requests that are answered and counted.
use trackflow.Prelude.{ℕ, ◌≡◌, refl, Bool-cases, inl, inr, none, some, ◌∙◌, ◌-◌}
use trackflow.Text.{Text, text, text_eq}
use trackflow.Http.{get, request_id_header}
use trackflow.Http.Handling.{Outcome, returned, panicked, Sending, server_writer, not_found}
use trackflow.Metrics.{HttpMetrics, Milliseconds, MetricsSnapshot, snapshot, observe, route_pattern}
use trackflow.Metrics.Middleware.{
  Serving, Asked, status_recorder, completed, timed, observed, handler,
}
use trackflow.Metrics.Recording.{
  recording, IsSent, get-content_type, get-sniff, send_status-IsSent, send_body-IsSent,
}

-- A handler has returned and sent its answer, and has left the metrics and the pattern alone.
pub record IsAnswered {S : Type 0} (id : Text) (before : Serving S)
    (o : Outcome × ((Sending × ℕ) × Serving S)) : Type 0 where
  pub returns : o.0 ≡ returned
  pub sent : IsSent id o.1.0
  pub counted : o.1.1.metrics ≡ before.metrics
  pub matched : o.1.1.pattern ≡ before.pattern

module _ {R S : Type 0} (asked : Asked R) (r : R) (id : Text) (w : Sending × ℕ) (s : Serving S)
    (unsent : w.0.status ≡ none) (named : get w.0.header request_id_header ≡ id) where
  pub not_found-IsAnswered : IsAnswered id s (not_found (Sending × ℕ) recording r (w, s))
  unfolding not_found status_recorder server_writer
  not_found-IsAnswered =
      let plain = get-content_type w.0.header (text "text/plain; charset=utf-8") in
      record {
        returns = refl;
        sent =
            send_body-IsSent _ (text "404 page not found\n") _ 404
              (send_status-IsSent _ 404 _ unsent (get-sniff _ ∙ (plain ∙ named)));
        counted = refl;
        matched = refl;
      }

  pub handler-IsAnswered :
      {F : Type 0} (ms : Milliseconds F) (encode : MetricsSnapshot ms → Text)
      → IsAnswered id s (handler asked ms encode (Sending × ℕ) recording r (w, s))
  unfolding handler status_recorder server_writer
  handler-IsAnswered ms encode = elim (Bool-cases (text_eq (asked.method r) (text "GET"))) [
    | inl got ↦ rw got record {
      returns = refl;
      sent =
          send_body-IsSent _ (encode (snapshot ms s.metrics)) _ 200
            (send_status-IsSent _ 200 _ unsent (get-content_type w.0.header _ ∙ named));
      counted = refl;
      matched = refl;
    }
    | inr other ↦ rw other record {
      returns = refl;
      sent = send_status-IsSent _ 405 w.0 unsent named;
      counted = refl;
      matched = refl;
    }
  ]

-- A request has been answered, under its id, and counted once, under its method, its route and the
-- status of the answer.
pub record Served {R S : Type 0} (asked : Asked R) (r : R) (pattern id : Text)
    (before : HttpMetrics) (o : Outcome × (Sending × Serving S)) : Type 0 where
  pub status : ℕ
  pub duration : ℕ
  pub returns : o.0 ≡ returned
  pub sent : o.1.0.status ≡ some status
  pub named : get o.1.0.sent request_id_header ≡ id
  pub counted :
      o.1.1.metrics
      ≡ observe
          (record {
            method = asked.method r;
            route = route_pattern pattern (asked.path r);
            status = status;
          })
          duration
          before

module _ {R S : Type 0} (asked : Asked R) (now : S → ℕ × S) where
  pub completed-Served :
      (r : R) (id pattern : Text) (started : ℕ) (before : Serving S)
      (o : Outcome × ((Sending × ℕ) × Serving S))
      → IsAnswered id before o
      → before.pattern ≡ pattern
      → Served asked r pattern id before.metrics (completed asked now r started o)
  unfolding completed timed observed
  completed-Served r id pattern started before (returned, ((w, status), s)) answered matching =
      record {
        status = status;
        duration = (timed asked now s).0 - started;
        returns = refl;
        sent = answered.sent.0;
        named = answered.sent.1;
        counted = rw (answered.counted, answered.matched, matching) refl;
      }
  completed-Served r id pattern started before (panicked, ((w, status), s)) answered matching =
      absurd cc
