-- ===== src/Metrics/Recording.antt =====
-- What a handler writes under the recorder of the metrics.
use trackflow.Prelude.{ℕ, ◌≡◌, refl, some, none, arith}
use trackflow.Text.{Text, text, text_eq}
use trackflow.Http.{Header, get, set, request_id_header}
use trackflow.Http.Laws.{get-set_other}
use trackflow.Http.Handling.{
  ResponseWriter, Sending, server_writer, send_status, send_body, content_type,
}
use trackflow.Metrics.Middleware.{status_recorder}

-- The writer that the recorder of the metrics hands to the mux.
abbrev pub recording : ResponseWriter (Sending × ℕ)
recording = status_recorder server_writer

-- A writer on which the recorded status is sent, under the id of the request.
abbrev pub IsSent : Text → Sending × ℕ → Type 0
IsSent id (w, status) = (w.status ≡ some status) × (get w.sent request_id_header ≡ id)

pub get-content_type :
    (header : Header) (value : Text)
    → get (set header content_type value) request_id_header ≡ get header request_id_header
unfolding text_eq
get-content_type header value = get-set_other header request_id_header content_type value refl

pub get-sniff :
    (header : Header)
    → get (set header (text "X-Content-Type-Options") (text "nosniff")) request_id_header
      ≡ get header request_id_header
unfolding text_eq
get-sniff header =
    get-set_other header request_id_header (text "X-Content-Type-Options") (text "nosniff") refl

pub send_status-IsSent :
    (id : Text) (n : ℕ) (w : Sending)
    → w.status ≡ none
    → get w.header request_id_header ≡ id
    → IsSent id (send_status n w, n)
unfolding send_status
send_status-IsSent id n w unsent named = ground arith

pub send_body-IsSent :
    (id what : Text) (w : Sending) (n : ℕ) → IsSent id (w, n) → IsSent id (send_body what w, n)
unfolding send_body send_status
send_body-IsSent id what w n sent = ground arith
