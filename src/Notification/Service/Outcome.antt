-- ===== src/Notification/Service/Outcome.antt =====
-- How Send of services/notification-service/internal/service/service.go ends.
use mathlib.Core.Path.{subst}
use trackflow.Prelude.{
  ◌≡◌, some, refl, ok, err, true, false, Result, ℕ, Bool, Bool-cases, ◌==◌, inl, inr, sym,
}
use trackflow.Text.{Text}
use trackflow.Notification.Event.{Event, checked_event, build_dedup_key}
use trackflow.Notification.Service.{
  DedupState, Sender, NotificationService, reserve_dedup_key, release_dedup_key, send, send_with,
  tick, stamped, reserved, settled, deliver_or_skip, with_sender-some,
}

module _ {S : Type 0} (s : NotificationService S) (sender : Sender S) (event : Event)
    (d : DedupState) (st : S) where
  -- The creation time that the sender sees and the instant of the reservation, read from the clock
  -- in this order where the event has no time, with the state behind the readings.
  pub data Timed (checked : Event) : ℕ → ℕ → S → Type 0 where
    unset :
        (checked.created_at == 0) ≡ true
        → Timed checked
            (s.now_fn.read st).0
            (s.now_fn.read (s.now_fn.read st).1).0
            (s.now_fn.read (s.now_fn.read st).1).1
    preset :
        (checked.created_at == 0) ≡ false
        → Timed checked checked.created_at (s.now_fn.read st).0 (s.now_fn.read st).1

  -- The ways in which a send ends.
  pub data Sending : Result Text (Unit {0}) × (DedupState × S) → Type 0 where
    rejected : (e : Text) → checked_event event ≡ err e → Sending (err e, (d, st))
    repeated :
        (checked : Event) (at now : ℕ) (st' : S)
        → checked_event event ≡ ok checked
        → Timed checked at now st'
        → (reserve_dedup_key (build_dedup_key checked) now d).0 ≡ false
        → Sending (ok tt, ((reserve_dedup_key (build_dedup_key checked) now d).1, st'))
    delivered :
        (checked : Event) (at now : ℕ) (st' st'' : S)
        → checked_event event ≡ ok checked
        → Timed checked at now st'
        → (reserve_dedup_key (build_dedup_key checked) now d).0 ≡ true
        → sender.deliver (record checked { created_at = at }) st' ≡ (ok tt, st'')
        → Sending (ok tt, ((reserve_dedup_key (build_dedup_key checked) now d).1, st''))
    undelivered :
        (checked : Event) (at now : ℕ) (st' st'' : S) (e : Text)
        → checked_event event ≡ ok checked
        → Timed checked at now st'
        → (reserve_dedup_key (build_dedup_key checked) now d).0 ≡ true
        → sender.deliver (record checked { created_at = at }) st' ≡ (err e, st'')
        → Sending (
          err e,
          (
            release_dedup_key
                (build_dedup_key checked)
                (reserve_dedup_key (build_dedup_key checked) now d).1,
            st'',
          ),
        )

  module _ (checked : Event) (accepted : checked_event event ≡ ok checked) (at now : ℕ) (st' : S)
      (times : Timed checked at now st') where
    settled-Sending :
        (reserve_dedup_key (build_dedup_key checked) now d).0 ≡ true
        → (r : Result Text (Unit {0}) × S)
        → sender.deliver (record checked { created_at = at }) st' ≡ r
        → Sending (
            settled
              (build_dedup_key checked)
              (reserve_dedup_key (build_dedup_key checked) now d).1
              r)
    unfolding settled
    settled-Sending fresh (ok _, st'') h = delivered checked at now st' st'' accepted times fresh h
    settled-Sending fresh (err e, st'') h =
        undelivered checked at now st' st'' e accepted times fresh h

    tried :
        (fresh : Bool)
        → (reserve_dedup_key (build_dedup_key checked) now d).0 ≡ fresh
        → Sending (
            deliver_or_skip sender
              (record checked { created_at = at })
              fresh
              ((reserve_dedup_key (build_dedup_key checked) now d).1, st'))
    unfolding deliver_or_skip build_dedup_key
    tried true fresh = settled-Sending fresh _ refl
    tried false stale = repeated checked at now st' accepted times stale

  checked-Sending :
      (r : Result Text Event) → checked_event event ≡ r → Sending (send_with s sender event (d, st))
  unfolding send_with stamped tick reserved build_dedup_key
  checked-Sending (err e) h = rw h (rejected e h)
  checked-Sending (ok checked) h = elim (Bool-cases (checked.created_at == 0)) [
    | inl unset_time ↦
        rw (h, unset_time)
          (tried checked h (s.now_fn.read st).0 (s.now_fn.read (s.now_fn.read st).1).0
            (s.now_fn.read (s.now_fn.read st).1).1 (unset unset_time) _ refl)
    | inr given ↦
        rw (h, given)
          (tried checked h checked.created_at (s.now_fn.read st).0 (s.now_fn.read st).1
            (preset given) _ refl)
  ]

  -- Every send ends in one of four ways: an event that fails a check is refused with nothing
  -- changed; an event whose key is still reserved, at the instant that the clock shows, is dropped
  -- without an error and without the sender; otherwise the sender gets the event with its normalized channel and a creation time
  -- once, and the key stays reserved if it succeeds and is given back if it fails.
  pub send-Sending : s.sender ≡ some sender → Sending (send s event (d, st))
  unfolding send
  send-Sending h =
      subst (λ f. Sending (f (d, st)))
        (sym (with_sender-some s.sender (λ sender. send_with s sender event) h))
        (checked-Sending _ refl)
