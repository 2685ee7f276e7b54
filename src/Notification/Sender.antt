-- ===== src/Notification/Sender.antt =====
-- services/notification-service/internal/sender/mock.go, and what cmd/server/main.go makes of the
-- environment. The log line of a notification, which is all that the mock sends, is kept in the
-- state; the context is what `cancelled` reads of the rest of it.
use trackflow.Prelude.{
  ◌++◌, List, [], ◌∷◌, Bool, not, Option, none, some, Result, ok, err, if◌then◌else◌, ℤ, pos,
}
use trackflow.Prelude.Action.{Action}
use trackflow.Text.{Text, text, text_eq, trim_space, to_lower, is_empty}
use trackflow.Environment.{Environment, get_env, get_duration_env}
use trackflow.Notification.Event.{Event}
use trackflow.Notification.Service.{Sender, DedupState, new_dedup, set_dedup_window}

pub record Line : Type 0 where
  pub provider : Text
  pub event : Event
  pub api_key_set : Bool

pub record MockSender : Type 0 where
  pub provider : Text
  pub api_key : Text

module _ {X : Type 0} (cancelled : X → Option Text) where
  unfoldable pub deliver : MockSender → Event → Action (List Line × X) Text (Unit {0})
  deliver s event (lines, x) = elim (cancelled x) [
    | some e ↦ (err e, (lines, x))
    | none ↦ (
      ok tt,
      (
        lines
            ++ record {
              provider = s.provider;
              event = event;
              api_key_set = not (is_empty s.api_key);
            }
              ∷ [],
        x,
      ),
    )
  ]

  unfoldable pub mock_sender : MockSender → Sender (List Line × X)
  unfolding deliver
  mock_sender s = record { deliver = deliver s }

  unfoldable pub build_sender : (provider api_key : Text) → Result Text (Sender (List Line × X))
  unfolding mock_sender
  build_sender provider api_key =
      if text_eq provider (text "mock")
      then ok (mock_sender (record { provider = provider; api_key = api_key }))
      else err (
          text "unsupported NOTIFICATION_PROVIDER=\""
          ++ (provider ++ text "\", only mock is supported"))

  -- The sender and the deduplication of the service that main starts.
  unfoldable pub start :
      (Text → Option ℤ) → Environment → Result Text (Sender (List Line × X) × DedupState)
  unfolding build_sender get_env get_duration_env set_dedup_window
  start parse_duration getenv =
      let provider =
        to_lower (trim_space (get_env getenv (text "NOTIFICATION_PROVIDER") (text "mock"))) in
      let api_key = trim_space (getenv (text "NOTIFICATION_API_KEY")) in
      let window =
        get_duration_env parse_duration getenv (text "NOTIFICATION_DEDUP_WINDOW")
          (pos 86_400_000_000_000) in
      elim (build_sender provider api_key) [
        | err e ↦ err e
        | ok sender ↦ ok (sender, set_dedup_window new_dedup window)
      ]
