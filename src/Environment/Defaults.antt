-- ===== src/Environment/Defaults.antt =====
-- What is configured whatever the environment holds.
use trackflow.Prelude.{◌≡◌, ℤ, pos, ltbℤ, true, Option, none, some, arith}
use trackflow.Text.{Text, trim_space}
use trackflow.Environment.{Environment, positive_or, get_duration_env}

positive_or_lem :
    (fallback : ℤ) (value : Option ℤ)
    → ltbℤ (pos 0) fallback ≡ true
    → ltbℤ (pos 0) (positive_or fallback value) ≡ true
unfolding positive_or
positive_or_lem fallback none h = h
positive_or_lem fallback (some value) h = ground arith

-- A duration is positive if its default is.
pub get_duration_env-positive :
    (parse_duration : Text → Option ℤ) (getenv : Environment) (key : Text) (fallback : ℤ)
    → ltbℤ (pos 0) fallback ≡ true
    → ltbℤ (pos 0) (get_duration_env parse_duration getenv key fallback) ≡ true
unfolding get_duration_env
get_duration_env-positive parse_duration getenv key fallback h =
    ground (arith, positive_or_lem fallback (parse_duration (trim_space (getenv key))) h)
