-- ===== src/Text.antt =====
-- Go strings as lists of code points, with the functions of the packages strings and unicode that
-- the services call. A string that is not valid UTF-8 is outside the model.
mod Case
pub mod Laws
pub mod Uuid
pub mod Number
pub mod Escape
use Prim.Native.Char.{code}
use Prim.Native.String.{String}
use trackflow.Prelude.{
  ℕ, Bool, true, false, ◌&&◌, ◌||◌, List, [], ◌∷◌, map, leb, ◌==◌, if◌then◌else◌, Option, none,
  some,
}
use Case.{to_lower_rune}

abbrev pub Text : Type 0
Text = List ℕ

-- A string literal.
abbrev pub text : String → Text
text String.[] = []
text (String.◌∷◌ c s) = code c ∷ text s

-- `==` of two strings.
unfoldable pub text_eq : Text → Text → Bool
text_eq [] [] = true
text_eq (c ∷ s) (d ∷ t) = c == d && text_eq s t
text_eq _ _ = false

-- unicode.IsSpace.
unfoldable pub is_space : ℕ → Bool
is_space c =
    (leb 9 c && leb c 13)
    || c == 32
    || c == 0x85
    || c == 0xa0
    || c == 0x1680
    || (leb 0x2000 c && leb c 0x200a)
    || c == 0x2028
    || c == 0x2029
    || c == 0x202f
    || c == 0x205f
    || c == 0x3000

trim_left : Text → Text
trim_left [] = []
trim_left (c ∷ s) = if is_space c then trim_left s else c ∷ s

-- A code point in front of a text whose end is trimmed.
before : ℕ → Text → Text
before c [] = if is_space c then [] else c ∷ []
before c (d ∷ s) = c ∷ d ∷ s

trim_right : Text → Text
trim_right [] = []
trim_right (c ∷ s) = before c (trim_right s)

-- strings.TrimSpace.
unfoldable pub trim_space : Text → Text
unfolding trim_left trim_right before is_space
trim_space s = trim_right (trim_left s)

-- strings.ToLower.
unfoldable pub to_lower : Text → Text
unfolding to_lower_rune
to_lower s = map to_lower_rune s

abbrev pub is_empty : Text → Bool
is_empty [] = true
is_empty (c ∷ s) = false

-- `m[k]` of a map with string keys, and `_, ok := m[k]` of a set.
module _ {ℓ} {V : Type ℓ} where
  unfoldable pub lookup : Text → List (Text × V) → Option V
  lookup k [] = none
  lookup k ((j, v) ∷ m) = if text_eq k j then some v else lookup k m

unfoldable pub contains : List Text → Text → Bool
contains [] k = false
contains (j ∷ m) k = text_eq k j || contains m k

-- strings.HasPrefix and strings.TrimPrefix, as one answer: what stands behind the prefix.
unfoldable pub after_prefix : Text → Text → Option Text
after_prefix [] s = some s
after_prefix (c ∷ p) [] = none
after_prefix (c ∷ p) (d ∷ s) = if c == d then after_prefix p s else none

abbrev pub is_some {ℓ} : {A : Type ℓ} → Option A → Bool
is_some none = false
is_some (some a) = true

-- strings.HasPrefix.
unfoldable pub has_prefix : Text → Text → Bool
unfolding after_prefix
has_prefix s p = is_some (after_prefix p s)

-- strings.TrimPrefix.
unfoldable pub trim_prefix : Text → Text → Text
unfolding after_prefix
trim_prefix s p = elim (after_prefix p s) [ none ↦ s | some rest ↦ rest ]

-- strings.Contains.
unfoldable pub has_part : Text → Text → Bool
unfolding after_prefix
has_part [] p = is_some (after_prefix p [])
has_part (c ∷ s) p = is_some (after_prefix p (c ∷ s)) || has_part s p
