-- ===== src/Prelude/Floats.antt =====
-- Go's float64 where it is compared and stored: the finite values, which are all that a JSON number
-- decodes to, as integers of units of 2^-1074, the least positive one. The two zeros are one.
use Prim.Native.Nat.{ℕ, zero, suc, ◌*◌, ◌^◌, ◌-◌}
use trackflow.Prelude.Int.{ℤ, pos, negsuc}

abbrev pub Float : Type 0
Float = ℤ

-- The units in 1.
unfoldable pub float_one : ℕ
float_one = 2 ^ 1_074

-- The numerals n and -n.
unfoldable pub float_pos : ℕ → Float
float_pos n = pos (n * float_one)

unfoldable pub float_neg : ℕ → Float
float_neg zero = pos 0
float_neg (suc n) = negsuc (suc n * float_one - 1)
