-- ===== src/Environment/Clients.antt =====
-- How NewTrackingHTTPClient (services/carrier-sync-service/internal/client/tracking_http.go) and
-- NewHTTPClient (services/tracking-service/internal/notification/http_client.go) read the address of
-- another service. url.ParseRequestURI, the error of which is a text, is a parameter.
use trackflow.Prelude.{
  ℤ, pos, lebℤ, [], ◌∷◌, ◌++◌, ◌==◌, ◌&&◌, Option, none, some, Result, ok, err, if◌then◌else◌, ℕ,
}
use trackflow.Text.{Text, text, trim_space, is_empty}

-- '/' as a code point.
abbrev slash : ℕ
slash = 47

-- strings.TrimRight of "/".
trim_slashes : Text → Text
trim_slashes [] = []
trim_slashes (c ∷ s) =
    let rest = trim_slashes s in if is_empty rest && (c == slash) then [] else c ∷ rest

unfoldable pub base_url : (Text → Option Text) → (missing invalid : Text) → Text → Result Text Text
unfolding trim_slashes
base_url parse_failure missing invalid raw =
    let base = trim_slashes (trim_space raw) in
    if is_empty base
    then err missing
    else elim (parse_failure base) [ none ↦ ok base | some e ↦ err (invalid ++ (text ": " ++ e)) ]

unfoldable pub request_timeout : (fallback timeout : ℤ) → ℤ
request_timeout fallback timeout = if lebℤ timeout (pos 0) then fallback else timeout
