-- ===== src/Gateway/Router/Answers.antt =====
-- What the handlers behind the router of the gateway write, under the recorder of the metrics.
use trackflow.Prelude.{ℕ, ◌≡◌, [], ◌∷◌, false, Result, ok, err, Option, none, some, ◌∙◌}
use trackflow.Text.{Text, is_empty, trim_space}
use trackflow.Http.{Header, get, set, request_id_header}
use trackflow.Http.Laws.{get-both}
use trackflow.Http.Handling.{Sending, server_writer, content_type}
use trackflow.Metrics.Middleware.{status_recorder}
use trackflow.Metrics.Recording.{recording, IsSent, send_status-IsSent, send_body-IsSent}
use trackflow.Gateway.Headers.{set_request_id_headers}
use trackflow.Gateway.Error.{HttpError, ErrorReply, handle, http}
use trackflow.Gateway.Proxy.{Answer}
use trackflow.Gateway.Proxy.Identity.{Keeps}
use trackflow.Gateway.Middleware.{write_reply}
use trackflow.Gateway.Router.{finish, copy_body}

pub get-set_request_id_headers :
    (header : Header) (id : Text)
    → is_empty (trim_space id) ≡ false
    → get (set_request_id_headers header id) request_id_header ≡ trim_space id
unfolding set_request_id_headers
get-set_request_id_headers header id given = rw given (get-both header (trim_space id)).0

write_reply-IsSent :
    (encode : ErrorReply → Text) (given : Text) (e : HttpError) (w : Sending × ℕ)
    → w.0.status ≡ none
    → is_empty (trim_space given) ≡ false
    → IsSent (trim_space given) (write_reply encode recording (handle given (http e)) w)
unfolding write_reply handle status_recorder trim_space server_writer
write_reply-IsSent encode [] e w unsent visible = cc
write_reply-IsSent encode (c ∷ given) e w unsent visible =
    send_body-IsSent _ (encode (handle (c ∷ given) (http e))) _ e.status (
      send_status-IsSent _ e.status _ unsent
        (get-set_request_id_headers (set w.0.header content_type _) (c ∷ given) visible))

copy_body-IsSent :
    (id : Text) (body : Option Text) (w : Sending × ℕ)
    → IsSent id w
    → IsSent id (copy_body recording body w)
unfolding copy_body status_recorder server_writer
copy_body-IsSent id none w sent = sent
copy_body-IsSent id (some body) (w, n) sent = send_body-IsSent id body w n sent

pub finish-IsSent :
    (encode : ErrorReply → Text) (given : Text) (result : Result HttpError Answer) (w : Sending × ℕ)
    → w.0.status ≡ none
    → get w.0.header request_id_header ≡ trim_space given
    → is_empty (trim_space given) ≡ false
    → {S : Type 0} (s : S) → Keeps w.0.header (result, s)
    → IsSent (trim_space given) (finish encode recording given result w)
unfolding finish status_recorder server_writer Keeps
finish-IsSent encode given (err e) w unsent named visible s kept =
    write_reply-IsSent encode given e w unsent visible
finish-IsSent encode given (ok answer) w unsent named visible s kept =
    copy_body-IsSent _ answer.body _ (
      send_status-IsSent (trim_space given) answer.status (record w.0 { header = answer.header })
        unsent (kept ∙ named))
