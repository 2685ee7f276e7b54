-- ===== src/Server/Served.antt =====
-- What becomes of a request to the router of a service, whatever its routes.
use trackflow.Prelude.{
  ℕ, ◌≡◌, List, [], ◌∷◌, length, All, ◌<◌, Option, none, some, refl, arith, false, Bool-cases, inl,
  inr, ◌∙◌,
}
use trackflow.Text.{Text, is_empty, trim_space}
use trackflow.Text.Laws.{trim_space-trim_space}
use trackflow.Http.{Header, get, request_id_header}
use trackflow.Http.Laws.{encode_to_string_visible, IsRandom, get-both}
use trackflow.Http.Handling.{Sending, server_writer, nothing_sent}
use trackflow.Http.Mux.{Route, find_route, pattern_of}
use trackflow.Metrics.{Milliseconds, MetricsSnapshot}
use trackflow.Metrics.Middleware.{Serving, status_recorder, middleware, timed, drawn}
use trackflow.Metrics.Recording.{
  recording, IsSent, get-content_type, send_status-IsSent, send_body-IsSent,
}
use trackflow.Metrics.Answering.{
  IsAnswered, not_found-IsAnswered, handler-IsAnswered, Served, completed-Served,
}
use trackflow.RequestId.{Context, resolve_from_headers, set_headers, generate, incoming_id}
use trackflow.RequestId as RequestId
use trackflow.Server.{
  Incoming, Page, Endpoint, metrics, page, write_page, request_ids, asked, serve, new,
}

get-set_headers :
    (header : Header) (id : Text)
    → is_empty (trim_space id) ≡ false
    → get (set_headers header id) request_id_header ≡ trim_space id
unfolding set_headers
get-set_headers header id given = rw given (get-both header (trim_space id)).0

generate_visible :
    (bytes : Option (List ℕ))
    → ((buffer : List ℕ) → bytes ≡ some buffer → (length buffer ≡ 12) × All (λ b. b < 256) buffer)
    → is_empty (trim_space (generate bytes)) ≡ false
unfolding generate trim_space
generate_visible none filled = refl
generate_visible (some []) filled = let (full, bounded) = filled [] refl in absurd (omega arith)
generate_visible (some (b ∷ bytes)) filled =
    let (full, bounded) = filled (b ∷ bytes) refl in encode_to_string_visible b bytes bounded.0

resolve_from_headers_trimmed :
    (header : Header) → trim_space (resolve_from_headers header) ≡ resolve_from_headers header
unfolding resolve_from_headers
resolve_from_headers_trimmed header =
    elim (Bool-cases (is_empty (trim_space (get header request_id_header)))) [
      | inl absent ↦ rw absent (trim_space-trim_space _)
      | inr given ↦ rw given (trim_space-trim_space _)
    ]

incoming_id_visible :
    (bytes : Option (List ℕ)) (header : Header)
    → ((buffer : List ℕ) → bytes ≡ some buffer → (length buffer ≡ 12) × All (λ b. b < 256) buffer)
    → is_empty (trim_space (incoming_id bytes header)) ≡ false
unfolding incoming_id
incoming_id_visible bytes header filled =
    elim (Bool-cases (is_empty (resolve_from_headers header))) [
      | inl absent ↦ rw absent (generate_visible bytes filled)
      | inr given ↦ rw given (rw (resolve_from_headers_trimmed header) given)
    ]

write_page-IsSent :
    (id : Text) (answer : Page) (w : Sending × ℕ)
    → w.0.status ≡ none
    → get w.0.header request_id_header ≡ id
    → IsSent id (write_page recording answer w)
unfolding write_page status_recorder server_writer
write_page-IsSent id answer w unsent named =
    send_body-IsSent id answer.body _ answer.status (
      send_status-IsSent id answer.status _ unsent
        (get-content_type w.0.header answer.kind ∙ named))

module _ {Q S F : Type 0} (method : Q → Text) (ms : Milliseconds F)
    (encode_snapshot : MetricsSnapshot ms → Text) where
  module _ (r : Incoming Q) (id : Text) (w : Sending × ℕ) (s : Serving S)
      (unsent : w.0.status ≡ none) (named : get w.0.header request_id_header ≡ id) where
    endpoint-IsAnswered :
        (found : Route (Endpoint Q S)) (value : Text) (endpoint : Endpoint Q S)
        → IsAnswered id
            (record s { pattern = found.pattern })
            (serve method ms encode_snapshot
              (some (record found { endpoint = endpoint }, value))
              (Sending × ℕ)
              recording
              r
              (w, s))
    unfolding serve
    endpoint-IsAnswered found value metrics =
        handler-IsAnswered (asked method) r id w (record s { pattern = found.pattern }) unsent named
          ms encode_snapshot
    endpoint-IsAnswered found value (page handler) = record {
      returns = refl;
      sent = write_page-IsSent id (handler value r.request s.rest).0 w unsent named;
      counted = refl;
      matched = refl;
    }

    serve-IsAnswered :
        (found : Option (Route (Endpoint Q S) × Text))
        → IsAnswered id
            (record s { pattern = pattern_of found })
            (serve method ms encode_snapshot found (Sending × ℕ) recording r (w, s))
    unfolding serve pattern_of
    serve-IsAnswered none =
        not_found-IsAnswered (asked method) r id w (record s { pattern = [] }) unsent named
    serve-IsAnswered (some (found, value)) = endpoint-IsAnswered found value found.endpoint

  module _ (now : S → ℕ × S) (random : S → Option (List ℕ) × S) (filled : IsRandom random)
      (path : Text → List Text) (routes : List (Route (Endpoint Q S))) where
    measured-Served :
        (r : Incoming Q) (context : Context) (id : Text) (s : Serving S)
        → is_empty (trim_space id) ≡ false
        → Served
            (asked method)
            r
            (pattern_of (find_route routes (path r.path)))
            (trim_space id)
            s.metrics
            (middleware
              (asked method)
              now
              (some λ W out r.
                serve method ms encode_snapshot (find_route routes (path r.path)) W out r)
              Sending
              server_writer
              (record r { context = context })
              (record nothing_sent { header = set_headers [] id }, s))
    unfolding middleware timed
    measured-Served r context id s visible =
        completed-Served (asked method) now r (trim_space id)
          (pattern_of (find_route routes (path r.path))) _ _ _
          (serve-IsAnswered (record r { context = context }) (trim_space id)
            (record nothing_sent { header = set_headers [] id }, 200) (timed (asked method) now s).1
            refl (get-set_headers [] id visible) (find_route routes (path r.path)))
          refl

    -- Every request to the router of a service is answered, whatever the routes and the handlers
    -- that are registered, whatever the path, the method and the body: a status is sent, the first
    -- X-Request-ID in the headers of the answer is the id of the request, the one that it came with
    -- or a new one, and the metrics have counted the request once, under its method, the pattern of
    -- its route and the status that was sent.
    pub new-Served :
        (r : Incoming Q) (s : Serving S)
        → Served
            (asked method)
            r
            (pattern_of (find_route routes (path r.path)))
            (trim_space (incoming_id (random s.rest).0 r.header))
            s.metrics
            (new method ms encode_snapshot now random path routes Sending server_writer r
              (nothing_sent, s))
    unfolding new request_ids RequestId.middleware drawn server_writer
    new-Served r s =
        let visible = incoming_id_visible (random s.rest).0 r.header (filled s.rest) in
        elim (Bool-cases (is_empty (resolve_from_headers r.header))) [
          | inl absent ↦ rw absent (measured-Served r _ _ (drawn random s).1 visible)
          | inr given ↦ rw given (measured-Served r _ _ s visible)
        ]
