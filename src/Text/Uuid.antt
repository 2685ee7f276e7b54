-- ===== src/Text/Uuid.antt =====
-- uuidPattern of the services: ^[0-9a-fA-F]{8}-[0-9a-fA-F]{4}-…-[0-9a-fA-F]{12}$.
use trackflow.Prelude.{ℕ, zero, suc, Bool, true, false, ◌&&◌, ◌||◌, List, [], ◌∷◌, ◌++◌, leb, ◌==◌}
use trackflow.Text.{Text}

pub data RuneClass : Type 0 where
  hex dash : RuneClass

in_class : RuneClass → ℕ → Bool
in_class hex c =
    (leb b'0' c && leb c b'9') || (leb b'a' c && leb c b'f') || (leb b'A' c && leb c b'F')
in_class dash c = c == b'-'

-- `[…]{n}`.
abbrev times : ℕ → List RuneClass
times zero = []
times (suc n) = hex ∷ times n

uuid_pattern : List RuneClass
uuid_pattern =
    times 8 ++ (dash ∷ times 4 ++ (dash ∷ times 4 ++ (dash ∷ times 4 ++ (dash ∷ times 12))))

-- A match of the whole string.
matches : List RuneClass → Text → Bool
matches [] [] = true
matches (p ∷ ps) (c ∷ s) = in_class p c && matches ps s
matches _ _ = false

-- uuidPattern.MatchString.
unfoldable pub is_uuid : Text → Bool
unfolding uuid_pattern matches in_class
is_uuid s = matches uuid_pattern s
