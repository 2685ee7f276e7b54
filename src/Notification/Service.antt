-- ===== src/Notification/Service.antt =====
-- services/notification-service/internal/service/service.go, with internal/model/event.go.
-- Errors are their messages. The map of sent keys is an association list; an instant is a number
-- of nanoseconds, and 0 is Go's zero time. The lock is held inside `reserve_dedup_key` and
-- `release_dedup_key` alone, so these two are the steps that other requests may come between.
pub mod Dedup
pub mod Outcome
use trackflow.Prelude.{
  ℕ, ◌+◌, Bool, true, false, ◌||◌, List, [], ◌∷◌, ◌++◌, Option, none, some, Result, ok, err, leb,
  ltb, ◌==◌, if◌then◌else◌, fail_if, ℤ, pos, negsuc, ◌≡◌,
}
use trackflow.Prelude.Action.{Action, pure, raise, ◌>>=◌, ◌>>◌, lift}
use trackflow.Text.{Text, text, text_eq, trim_space, to_lower, is_empty, lookup}
use trackflow.Notification.Event.{Event, build_dedup_key, checked_event}

pub record Sender (S : Type 0) : Type 0 where
  pub deliver : Event → Action S Text (Unit {0})

-- `nowFn`.
pub record Clock (S : Type 0) : Type 0 where
  pub read : S → ℕ × S

-- The guarded fields of the service.
pub record DedupState : Type 0 where
  pub window : ℤ
  pub sent_at : List (Text × ℕ)

pub record NotificationService (S : Type 0) : Type 0 where
  pub sender : Option (Sender S)
  pub now_fn : Clock S

-- 24 hours.
abbrev pub default_dedup_window : ℕ
default_dedup_window = 86_400_000_000_000

-- New's map, and the window of New.
unfoldable pub new_dedup : DedupState
new_dedup = record { window = pos default_dedup_window; sent_at = [] }

-- A window that is not positive is replaced.
unfoldable pub positive_window : ℤ → ℕ
positive_window (negsuc n) = default_dedup_window
positive_window (pos n) = if n == 0 then default_dedup_window else n

unfoldable pub set_dedup_window : DedupState → ℤ → DedupState
unfolding positive_window
set_dedup_window d window = record d { window = pos (positive_window window) }

-- `delete(m, key)`.
unfoldable pub remove : Text → List (Text × ℕ) → List (Text × ℕ)
remove key [] = []
remove key ((k, at) ∷ m) = let rest = remove key m in if text_eq k key then rest else (k, at) ∷ rest

-- cleanupExpiredDedup: `now.Sub(sentAt) >= window` is `sentAt + window <= now`.
unfoldable pub cleanup_expired : ℕ → ℕ → List (Text × ℕ) → List (Text × ℕ)
cleanup_expired now window [] = []
cleanup_expired now window ((k, at) ∷ m) =
    let rest = cleanup_expired now window m in
    if leb (at + window) now then rest else (k, at) ∷ rest

-- The test behind the lookup, `now.Sub(sentAt) < window`.
still_fresh : ℕ → ℕ → Option ℕ → Bool
still_fresh now window none = false
still_fresh now window (some at) = ltb now (at + window)

unfoldable pub reserve_dedup_key : Text → ℕ → DedupState → Bool × DedupState
unfolding still_fresh
reserve_dedup_key key now d =
    let window = positive_window d.window in
    let live = cleanup_expired now window d.sent_at in
    if still_fresh now window (lookup key live)
    then (false, record d { sent_at = live })
    else (true, record d { sent_at = (key, now) ∷ remove key live })

unfoldable pub release_dedup_key : Text → DedupState → DedupState
release_dedup_key key d = record d { sent_at = remove key d.sent_at }

module _ {S : Type 0} where
  unfoldable pub health : NotificationService S → Result Text (Unit {0})
  health s = elim s.sender [ none ↦ err (text "sender is not configured") | some sender ↦ ok tt ]

  -- A reading of the clock.
  tick : NotificationService S → Action (DedupState × S) Text ℕ
  tick s (d, st) = (ok (s.now_fn.read st).0, (d, (s.now_fn.read st).1))

  -- CreatedAt where the event has none.
  stamped : NotificationService S → Event → Action (DedupState × S) Text Event
  unfolding tick
  stamped s event =
      if event.created_at == 0
      then (tick s >>= λ now. pure (record event { created_at = now }))
      else pure event

  reserved : Text → ℕ → Action (DedupState × S) Text Bool
  reserved key now (d, st) =
      (ok (reserve_dedup_key key now d).0, ((reserve_dedup_key key now d).1, st))

  -- The sender's answer; a failure gives the key back.
  settled :
      Text → DedupState → Result Text (Unit {0}) × S → Result Text (Unit {0}) × (DedupState × S)
  settled key d (ok _, st) = (ok tt, (d, st))
  settled key d (err e, st) = (err e, (release_dedup_key key d, st))

  deliver_or_skip : Sender S → Event → Bool → Action (DedupState × S) Text (Unit {0})
  unfolding settled
  deliver_or_skip sender event true (d, st) =
      settled (build_dedup_key event) d (sender.deliver event st)
  deliver_or_skip sender event false (d, st) = (ok tt, (d, st))

  send_with : NotificationService S → Sender S → Event → Action (DedupState × S) Text (Unit {0})
  send_with s sender event = do
    checked ← lift (checked_event event)
    event ← stamped s checked
    now ← tick s
    fresh ← reserved (build_dedup_key event) now
    deliver_or_skip sender event fresh

  with_sender :
      Option (Sender S)
      → (Sender S → Action (DedupState × S) Text (Unit {0}))
      → Action (DedupState × S) Text (Unit {0})
  with_sender none f = raise (text "sender is not configured")
  with_sender (some sender) f = f sender

  with_sender-some :
      (o : Option (Sender S)) (f : Sender S → Action (DedupState × S) Text (Unit {0}))
      {sender : Sender S}
      → o ≡ some sender
      → with_sender o f ≡ f sender
  unfolding with_sender
  with_sender-some o f h = rw h

  unfoldable pub send : NotificationService S → Event → Action (DedupState × S) Text (Unit {0})
  unfolding send_with tick stamped reserved deliver_or_skip with_sender
  send s event = with_sender s.sender λ sender. send_with s sender event
