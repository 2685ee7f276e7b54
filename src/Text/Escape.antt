-- ===== src/Text/Escape.antt =====
-- url.PathEscape of net/url, which keeps a code point or writes the bytes of its UTF-8 form.
use trackflow.Prelude.{
  ℕ, ◌+◌, ◌/◌, ◌%◌, Bool, ◌||◌, ◌&&◌, List, [], ◌∷◌, ◌++◌, leb, ltb, ◌==◌, if◌then◌else◌,
}
use trackflow.Text.{Text}

-- Letters, digits, and the marks that a path segment may hold.
is_kept : ℕ → Bool
is_kept c =
    (leb b'a' c && leb c b'z')
    || (leb b'A' c && leb c b'Z')
    || (leb b'0' c && leb c b'9')
    || c == b'-'
    || c == b'_'
    || c == b'.'
    || c == b'~'
    || c == b'$'
    || c == b'&'
    || c == b'+'
    || c == b'='
    || c == b':'
    || c == b'@'

utf8 : ℕ → List ℕ
utf8 c =
    if ltb c 128
    then c ∷ []
    else if ltb c 2_048
    then (192 + c / 64) ∷ (128 + c % 64) ∷ []
    else if ltb c 65_536
    then (224 + c / 4_096) ∷ (128 + c / 64 % 64) ∷ (128 + c % 64) ∷ []
    else (240 + c / 262_144) ∷ (128 + c / 4_096 % 64) ∷ (128 + c / 64 % 64) ∷ (128 + c % 64) ∷ []

hex_digit : ℕ → ℕ
hex_digit n = if ltb n 10 then n + b'0' else n + 55

percents : List ℕ → Text
unfolding hex_digit
percents [] = []
percents (b ∷ bytes) = b'%' ∷ hex_digit (b / 16) ∷ hex_digit (b % 16) ∷ percents bytes

unfoldable pub path_escape : Text → Text
unfolding is_kept utf8 percents
path_escape [] = []
path_escape (c ∷ s) =
    let rest = path_escape s in if is_kept c then c ∷ rest else percents (utf8 c) ++ rest
