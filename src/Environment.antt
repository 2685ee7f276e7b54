-- ===== src/Environment.antt =====
-- What the entry points, services/*/cmd/server/main.go, and the gateway's proxy.go read of the
-- environment. os.Getenv is a function, empty for what is not set; time.ParseDuration is a
-- parameter, and durations are numbers of nanoseconds. The functions are the same in every service,
-- and a line of the log is left out.
pub mod Defaults
pub mod Clients
use trackflow.Prelude.{ℤ, pos, lebℤ, Option, none, some, if◌then◌else◌}
use trackflow.Text.{Text, text, trim_space, is_empty}

abbrev pub Environment : Type 0
Environment = Text → Text

unfoldable pub get_env : Environment → (key fallback : Text) → Text
get_env getenv key fallback = let value = getenv key in if is_empty value then fallback else value

-- A duration that is read and positive.
positive_or : ℤ → Option ℤ → ℤ
positive_or fallback none = fallback
positive_or fallback (some value) = if lebℤ value (pos 0) then fallback else value

module _ (parse_duration : Text → Option ℤ) where
  -- getDurationEnv, which the gateway has under the name parseDurationEnv.
  unfoldable pub get_duration_env : Environment → Text → ℤ → ℤ
  unfolding positive_or
  get_duration_env getenv key fallback =
      let raw = trim_space (getenv key) in
      if is_empty raw then fallback else positive_or fallback (parse_duration raw)
