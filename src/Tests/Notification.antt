-- ===== src/Tests/Notification.antt =====
-- services/notification-service at one event.
use trackflow.Prelude.{
  ◌≡◌, ◌+◌, ◌↔◌, ◌==◌, ℕ, suc, Bool, true, false, List, [], ◌∷◌, some, ok, pos, refl, All,
  if◌then◌else◌, arith,
}
use trackflow.Text.{Text, text, text_eq, lookup, trim_space, to_lower}
use trackflow.Notification.Event.{Event, build_dedup_key, canonical}
use trackflow.Notification.Event.Key.{NoBar, build_dedup_key_iff}
use trackflow.Notification.Service.{
  Sender, DedupState, NotificationService, reserve_dedup_key, send, cleanup_expired, remove,
  positive_window,
}
use trackflow.Notification.Service.Dedup.{
  IsMap, Op, reserve, release, run, Spares, reserved_until_window,
}
use trackflow.Notification.Service.Outcome.{Sending, send-Sending}

abbrev event : Event
event = record {
  order_id = text "o-1";
  status = text "delivered";
  channel = text "Email";
  recipient = text "ann@example.org";
  message = text "Delivered";
  created_at = 0;
}

abbrev other_event : Event
other_event = record event { order_id = text " O-1 " }

-- The window is ten nanoseconds, and a key was sent at 1.
abbrev dedup : DedupState
dedup = record { window = pos 10; sent_at = (text "a", 1) ∷ (text "b", 5) ∷ [] }

dedup-IsMap : IsMap dedup.sent_at
unfolding lookup text_eq
dedup-IsMap = (refl, (refl, tt))

reserved_run : (reserve_dedup_key (text "a") 11 dedup).0 ≡ true
unfolding reserve_dedup_key lookup text_eq cleanup_expired remove positive_window
reserved_run = refl

-- The test for a text without the separator.
free : Text → Bool
free [] = true
free (c ∷ s) = (if c == b'|' then false else free s)

free-NoBar : (s : Text) → free s ≡ true → NoBar s
unfolding free
free-NoBar [] h = tt
free-NoBar (c ∷ s) h = ground (arith, free-NoBar s)

build_dedup_key_iff_example : (build_dedup_key event ≡ build_dedup_key other_event) ↔ (
    (canonical event.order_id ≡ canonical other_event.order_id)
    × (canonical event.status ≡ canonical other_event.status)
    × (canonical event.channel ≡ canonical other_event.channel)
    × (canonical event.recipient ≡ canonical other_event.recipient))
unfolding canonical trim_space to_lower free
build_dedup_key_iff_example =
    build_dedup_key_iff event other_event (free-NoBar (canonical event.order_id) refl)
      (free-NoBar (canonical event.status) refl) (free-NoBar (canonical event.channel) refl)
      (free-NoBar (canonical other_event.order_id) refl)
      (free-NoBar (canonical other_event.status) refl)
      (free-NoBar (canonical other_event.channel) refl)

-- Between the two reservations of "a" others come, one of them given back.
abbrev ops : List Op
ops = reserve (text "c") 12 ∷ release (text "c") ∷ reserve (text "a") 13 ∷ []

ops_spare : All (Spares (text "a") (11 + positive_window dedup.window)) ops
unfolding positive_window
ops_spare = (omega arith, (ground arith, (omega arith, tt)))

reserved_until_window_example :
    (reserve_dedup_key (text "a") 20 (run ops (reserve_dedup_key (text "a") 11 dedup).1)).0 ≡ false
unfolding positive_window
reserved_until_window_example =
    reserved_until_window (text "a") 11 20 ops dedup dedup-IsMap reserved_run ops_spare
      (omega arith)

-- The state of the sender counts its calls; the clock stands.
abbrev sender : Sender ℕ
sender = record { deliver = λ e n. (ok tt, suc n) }

abbrev service : NotificationService ℕ
service = record { sender = some sender; now_fn = record { read = λ n. (30, n) } }

send-Sending_example : Sending service sender event dedup 0 (send service event (dedup, 0))
send-Sending_example = send-Sending service sender event dedup 0 refl
