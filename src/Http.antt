-- ===== src/Http.antt =====
-- net/http and encoding/hex, as far as the services use them: headers. A header is a list of keys
-- with their values; the keys are in the form that net/http gives them.
pub mod Laws
pub mod Handling
pub mod Mux
use trackflow.Prelude.{ℕ, List, [], ◌∷◌, ◌++◌, if◌then◌else◌, ◌/◌, ◌%◌, ltb, ◌-◌, ◌+◌}
use trackflow.Text.{Text, text, text_eq}

abbrev pub Header : Type 0
Header = List (Text × List Text)

-- X-Request-ID and X-Correlation-ID in their canonical form.
abbrev pub request_id_header : Text
request_id_header = text "X-Request-Id"

abbrev pub correlation_id_header : Text
correlation_id_header = text "X-Correlation-Id"

first_value : List Text → Text
first_value [] = []
first_value (value ∷ values) = value

-- Header.Get, Header.Set and Header.Add.
unfoldable pub get : Header → Text → Text
unfolding first_value
get [] key = []
get ((k, values) ∷ header) key = if text_eq k key then first_value values else get header key

unfoldable pub set : Header → Text → Text → Header
set [] key value = (key, value ∷ []) ∷ []
set ((k, values) ∷ header) key value =
    if text_eq k key then (k, value ∷ []) ∷ header else (k, values) ∷ set header key value

unfoldable pub add : Header → Text → Text → Header
add [] key value = (key, value ∷ []) ∷ []
add ((k, values) ∷ header) key value =
    if text_eq k key then (k, values ++ value ∷ []) ∷ header else (k, values) ∷ add header key value

-- hex.EncodeToString.
hex_digit : ℕ → ℕ
hex_digit n = if ltb n 10 then b'0' + n else b'a' + (n - 10)

unfoldable pub encode_to_string : List ℕ → Text
unfolding hex_digit
encode_to_string [] = []
encode_to_string (b ∷ bytes) = hex_digit (b / 16) ∷ hex_digit (b % 16) ∷ encode_to_string bytes
