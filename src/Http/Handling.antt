-- ===== src/Http/Handling.antt =====
-- net/http, as far as the services use it: handlers and the writers that they are given. A handler
-- works with any writer, and may panic. `R` is a request, `S` the state of everything else.
use trackflow.Prelude.{ℕ, ◌++◌, [], Option, none, some, ◌≡◌, refl}
use trackflow.Text.{Text, text}
use trackflow.Http.{Header, set}

-- `set_header` stands for what a handler does to the map that Header returns. Statuses are final
-- ones, from 200 on.
pub record ResponseWriter (W : Type 0) : Type 0 where
  pub header : W → Header
  pub set_header : Header → W → W
  pub write_header : ℕ → W → W
  pub write : Text → W → W

pub data Outcome : Type 0 where
  returned : Outcome
  panicked : Outcome

abbrev pub Handler : Type 0 → Type 0 → Type 1
Handler R S = (W : Type 0) → ResponseWriter W → R → W × S → Outcome × (W × S)

-- The answer as the server writes it: its headers are sent with the first status, which stays.
pub record Sending : Type 0 where
  pub header : Header
  pub status : Option ℕ
  pub sent : Header
  pub body : Text

abbrev pub nothing_sent : Sending
nothing_sent = record { header = []; status = none; sent = []; body = [] }

unfoldable pub send_status : ℕ → Sending → Sending
send_status n w = elim w.status [
  | none ↦ record w { status = some n; sent = w.header }
  | some sent ↦ w
]

unfoldable pub send_body : Text → Sending → Sending
unfolding send_status
send_body what w = let begun = send_status 200 w in record begun { body = begun.body ++ what }

unfoldable pub server_writer : ResponseWriter Sending
unfolding send_status send_body
server_writer = record {
  header = λ w. w.header;
  set_header = λ header w. record w { header = header };
  write_header = send_status;
  write = send_body;
}

abbrev pub content_type : Text
content_type = text "Content-Type"

-- A status and a body, where nothing was sent before.
pub send_both :
    (n : ℕ) (what : Text) (w : Sending)
    → w.status ≡ none
    → send_body what (send_status n w)
      ≡ record w { status = some n; sent = w.header; body = w.body ++ what }
unfolding send_status send_body
send_both n what w unsent = rw unsent refl

-- http.NotFound.
unfoldable pub not_found : {R S : Type 0} → Handler R S
not_found W out r (w, s) =
    let header =
      set (set (out.header w) content_type (text "text/plain; charset=utf-8"))
        (text "X-Content-Type-Options") (text "nosniff") in
    let begun = out.write_header 404 (out.set_header header w) in
    (returned, (out.write (text "404 page not found\n") begun, s))
