-- ===== src/Text/Number.antt =====
-- strconv.Atoi: a decimal numeral with an optional sign, within the 64 bits of an int.
use trackflow.Prelude.{
  ◌/◌, ◌%◌, ℕ, ◌+◌, ◌-◌, ◌*◌, ◌^◌, ◌&&◌, Option, none, some, [], ◌∷◌, ltb, leb, ◌==◌, if◌then◌else◌,
  ℤ, pos, negsuc, suc, ◌++◌, zero,
}
use trackflow.Text.{Text}

-- The digits behind a value that has been read.
read_digits : ℕ → Text → Option ℕ
read_digits n [] = some n
read_digits n (c ∷ s) =
    let rest = read_digits (n * 10 + (c - b'0')) s in
    if leb b'0' c && leb c b'9' then rest else none

-- A numeral has one digit at least.
read_numeral : Text → Option ℕ
read_numeral [] = none
read_numeral (c ∷ s) = read_digits 0 (c ∷ s)

positive : Option ℕ → Option ℤ
positive none = none
positive (some n) = if ltb n (2 ^ 63) then some (pos n) else none

negative : Option ℕ → Option ℤ
negative none = none
negative (some n) =
    if n == 0 then some (pos 0) else if leb n (2 ^ 63) then some (negsuc (n - 1)) else none

unfoldable pub atoi : Text → Option ℤ
unfolding read_digits read_numeral positive negative
atoi [] = none
atoi (c ∷ s) =
    if c == b'-'
    then negative (read_numeral s)
    else if c == b'+'
    then positive (read_numeral s)
    else positive (read_numeral (c ∷ s))

-- A number in decimal, with its digits in reverse; the number itself is fuel enough.
decimal_digits : ℕ → ℕ → Text
decimal_digits zero n = (n % 10 + b'0') ∷ []
decimal_digits (suc fuel) n =
    let higher = decimal_digits fuel (n / 10) in
    if ltb n 10 then (n % 10 + b'0') ∷ [] else higher ++ (n % 10 + b'0') ∷ []

pub decimal : ℕ → Text
unfolding decimal_digits
decimal n = decimal_digits n n
