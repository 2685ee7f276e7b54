-- ===== src/Notification/Event.antt =====
-- services/notification-service/internal/model/event.go, and what internal/service/service.go reads
-- of an event alone: the checks of Send and the deduplication key. Errors are their messages.
pub mod Key
use trackflow.Prelude.{ℕ, Bool, ◌||◌, ◌++◌, Result, ok, err, if◌then◌else◌, fail_if, ◌>>=◌, ◌>>◌}
use trackflow.Text.{Text, text, text_eq, trim_space, to_lower, is_empty}

pub record Event : Type 0 where
  pub order_id : Text
  pub status : Text
  pub channel : Text
  pub recipient : Text
  pub message : Text
  pub created_at : ℕ

abbrev pub channel_email : Text
channel_email = text "email"

abbrev pub channel_telegram : Text
channel_telegram = text "telegram"

unfoldable pub normalize_channel : Text → Result Text Text
normalize_channel channel =
    let normalized = to_lower (trim_space channel) in
    if text_eq normalized channel_email || text_eq normalized channel_telegram
    then ok normalized
    else err (text "channel must be one of: email, telegram")

unfoldable pub canonical : Text → Text
canonical s = to_lower (trim_space s)

bar : Text
bar = text "|"

-- The four parts of a key.
joined : Text → Text → Text → Text → Text
unfolding bar
joined a b c d = a ++ (bar ++ (b ++ (bar ++ (c ++ (bar ++ d)))))

unfoldable pub build_dedup_key : Event → Text
unfolding canonical joined
build_dedup_key event =
    joined (canonical event.order_id) (canonical event.status) (canonical event.channel)
      (canonical event.recipient)

is_blank : Text → Bool
is_blank s = is_empty (trim_space s)

-- The checks of Send, which give the event its normalized channel.
unfoldable pub checked_event : Event → Result Text Event
unfolding is_blank
checked_event event = do
  fail_if (is_blank event.order_id) (text "order_id is required")
  fail_if (is_blank event.status) (text "status is required")
  fail_if (is_blank event.channel) (text "channel is required")
  channel ← normalize_channel event.channel
  fail_if (is_blank event.recipient) (text "recipient is required")
  fail_if (is_blank event.message) (text "message is required")
  ok (record event { channel = channel })
