-- ===== src/Http/Laws.antt =====
-- Reading a header that was set.
use trackflow.Prelude.{
  ◌≡◌, [], ◌∷◌, arith, refl, false, ℕ, List, ◌<◌, ◌/◌, Option, some, length, All,
}
use trackflow.Text.{Text, text_eq, is_empty, is_space, trim_space}
use trackflow.Text.Laws.{text_eq_refl, text_eq_iff, trim_space_visible}
use trackflow.Http.{
  Header, get, set, first_value, request_id_header, correlation_id_header, add, encode_to_string,
  hex_digit,
}

pub get-set : (header : Header) (key value : Text) → get (set header key value) key ≡ value
unfolding get set first_value
get-set [] key value = ground (arith, text_eq_refl key)
get-set ((k, values) ∷ header) key value =
    ground (arith, text_eq_refl key, get-set header key value)

pub get-set_other :
    (header : Header) (key other value : Text)
    → text_eq other key ≡ false
    → get (set header other value) key ≡ get header key
unfolding get set first_value
get-set_other [] key other value h = ground arith
get-set_other ((k, values) ∷ header) key other value h =
    ground (arith, h, text_eq_iff k other, get-set_other header key other value h)

-- A header under both names of the request id.
pub get-both :
    (header : Header) (id : Text)
    → (get (set (set header request_id_header id) correlation_id_header id) request_id_header ≡ id)
      × (get (set (set header request_id_header id) correlation_id_header id) correlation_id_header
          ≡ id)
unfolding text_eq
get-both header id = (
  ground (
    arith,
    get-set_other (set header request_id_header id) request_id_header correlation_id_header id refl,
    get-set header request_id_header id,
  ),
  get-set (set header request_id_header id) correlation_id_header id,
)

-- Adding to a header leaves the first value of a key that has one.
pub get-add :
    (header : Header) (other value key : Text)
    → is_empty (get header key) ≡ false
    → get (add header other value) key ≡ get header key
unfolding get add first_value
get-add [] other value key h = cc
get-add ((k, []) ∷ header) other value key h =
    ground (arith, text_eq_iff k other, text_eq_iff k key, get-add header other value key)
get-add ((k, v ∷ values) ∷ header) other value key h =
    ground (arith, text_eq_iff k other, text_eq_iff k key, get-add header other value key)

hex_digit_visible : (n : ℕ) → n < 16 → is_space (hex_digit n) ≡ false
unfolding is_space hex_digit
hex_digit_visible n h = ground arith

-- The code of a byte is not blank.
pub encode_to_string_visible :
    (b : ℕ) (bytes : List ℕ)
    → b < 256
    → is_empty (trim_space (encode_to_string (b ∷ bytes))) ≡ false
unfolding encode_to_string
encode_to_string_visible b bytes h =
    trim_space_visible (hex_digit (b / 16)) _ (hex_digit_visible (b / 16) (omega arith))

-- What rand.Read promises: where it succeeds, the buffer is full of bytes.
abbrev pub IsRandom : {S : Type 0} → (S → Option (List ℕ) × S) → Type 0
IsRandom {S} random =
    (s : S) (bytes : List ℕ)
    → (random s).0 ≡ some bytes
    → (length bytes ≡ 12) × All (λ b. b < 256) bytes
