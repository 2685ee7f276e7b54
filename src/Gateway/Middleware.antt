-- ===== src/Gateway/Middleware.antt =====
-- services/api-gateway/internal/gateway/middleware.go, and what its ErrorHandler (errors.go) writes.
-- The JSON of an error answer is a parameter, and so are the random bytes, none where rand.Read
-- fails. Logging, which only writes a log line, is left out.
pub mod Recovery
use trackflow.Prelude.{ℕ, List, [], ◌∷◌, Option, none, some, if◌then◌else◌}
use trackflow.Text.{Text, text, is_empty}
use trackflow.Http.{set}
use trackflow.Http.Handling.{ResponseWriter, Handler, Outcome, returned, panicked, content_type}
use trackflow.Gateway.Error.{ErrorReply, HandlerError, http, new_http_error, handle}
use trackflow.Gateway.Headers.{request_id_from_headers, generate_request_id, set_request_id_headers}
use trackflow.Gateway.Validation.{Request}

abbrev pub Middleware : Type 0 → Type 1
Middleware S = Handler Request S → Handler Request S

-- The loop runs from the last to the first.
unfoldable pub chain : {S : Type 0} → List (Middleware S) → Middleware S
chain [] next = next
chain (middleware ∷ middlewares) next = middleware (chain middlewares next)

-- The headers of an error answer, as Handle leaves them.
answer_header : {W : Type 0} → ResponseWriter W → ErrorReply → W → W
answer_header out reply w =
    let header = set (out.header w) content_type (text "application/json; charset=utf-8") in
    elim reply.request_id [
      | none ↦ out.set_header header w
      | some id ↦ out.set_header (set_request_id_headers header id) w
    ]

unfoldable pub write_reply :
    {W : Type 0} → (ErrorReply → Text) → ResponseWriter W → ErrorReply → W → W
unfolding answer_header
write_reply encode out reply w =
    out.write (encode reply) (out.write_header reply.status (answer_header out reply w))

module _ {S : Type 0} where
  -- The id that RequestID gives to a request, and the random source behind it.
  unfoldable pub chosen_id : (S → Option (List ℕ) × S) → Request → S → Text × S
  chosen_id random r s =
      let given = request_id_from_headers r.header in
      let (bytes, after) = random s in
      if is_empty given then (generate_request_id bytes, after) else (given, s)

  unfoldable pub request_id : (S → Option (List ℕ) × S) → Middleware S
  unfolding chosen_id
  request_id random next W out r (w, s) =
      let (id, after) = chosen_id random r s in
      next W out (record r { request_id = id })
        (out.set_header (set_request_id_headers (out.header w) id) w, after)

  -- What the deferred function of Recover does.
  unfoldable pub recovered :
      {W : Type 0}
      → (ErrorReply → Text)
      → ResponseWriter W
      → Request
      → Outcome × (W × S)
      → Outcome × (W × S)
  unfolding write_reply handle
  recovered encode out r (returned, st) = (returned, st)
  recovered encode out r (panicked, (w, s)) =
      let e = new_http_error 500 (text "panic_recovered") (text "internal server error") in
      (returned, (write_reply encode out (handle r.request_id (http e)) w, s))

  unfoldable pub recover : (ErrorReply → Text) → Middleware S
  unfolding recovered
  recover encode next W out r st = recovered encode out r (next W out r st)
