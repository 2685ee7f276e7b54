-- ===== src/Gateway/Middleware/Recovery.antt =====
-- Panics behind the middlewares of the gateway.
use trackflow.Prelude.{ℕ, ◌≡◌, List, [], ◌∷◌, ◌++◌, refl, ap, some, none, Option}
use trackflow.Text.{Text, text}
use trackflow.Http.Handling.{
  Handler, Outcome, returned, panicked, Sending, server_writer, nothing_sent, content_type,
  send_both,
}
use trackflow.Metrics.Middleware.{Serving, status_recorder, middleware, timed, Asked}
use trackflow.Gateway.Error.{ErrorReply}
use trackflow.Gateway.Headers.{set_request_id_headers}
use trackflow.Gateway.Validation.{Request}
use trackflow.Gateway.Middleware.{chain, recover, request_id, chosen_id}
use trackflow.Http.{set}

abbrev pub panic_reply : ErrorReply
panic_reply = record {
  status = 500;
  code = text "panic_recovered";
  message = text "internal server error";
  request_id = none;
}

module _ {S : Type 0} (encode : ErrorReply → Text) (asked : Asked Request) (now : S → ℕ × S)
    (random : Serving S → Option (List ℕ) × Serving S) (next : Handler Request (Serving S)) where
  -- The run of the handler behind the three middlewares of NewRouter.
  abbrev pub behind : Request → Serving S → Outcome × ((Sending × ℕ) × Serving S)
  behind r s =
      let (id, drawn) = chosen_id random r s in
      next (Sending × ℕ) (status_recorder server_writer) (record r { request_id = id })
        (
          (record nothing_sent { header = set_request_id_headers [] id }, 200),
          (timed asked now drawn).1,
        )

  -- A panic of any handler, before it has sent anything, is answered with 500, with a body that
  -- does not tell the id of the request, and the metrics do not count the request.
  pub recover-panicked :
      (r : Request) (s after : Serving S) (w : Sending) (n : ℕ)
      → r.request_id ≡ []
      → behind r s ≡ (panicked, ((w, n), after))
      → w.status ≡ none
      → let (o, (answer, left)) =
          chain
            (recover encode ∷ request_id random ∷ (λ m. middleware asked now (some m)) ∷ [])
            next
            Sending
            server_writer
            r
            (nothing_sent, s) in
        (o ≡ returned)
        × (answer.status ≡ some 500)
        × (answer.body ≡ w.body ++ encode panic_reply)
        × (left ≡ after)
  unfolding chain recover request_id middleware server_writer timed chosen_id
  recover-panicked r s after w n fresh panics unsent =
      let sent =
        send_both 500 (encode panic_reply)
          (record w { header = set w.header content_type (text "application/json; charset=utf-8") })
          unsent in
      rw (panics, fresh) (refl, ap (λ b. b.status) sent, ap (λ b. b.body) sent, refl)
