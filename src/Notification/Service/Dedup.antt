-- ===== src/Notification/Service/Dedup.antt =====
-- The map of sent keys in services/notification-service/internal/service/service.go.
use trackflow.Prelude.{
  ◌≡◌, ℕ, List, Option, if◌then◌else◌, some, none, arith, leb, ◌+◌, true, ◌↔◌, ◌&&◌, [], ◌∷◌, refl,
  false, ◌<◌, ◌≢◌, ap, All, ◌∙◌,
}
use trackflow.Text.{Text, text_eq, lookup}
use trackflow.Text.Laws.{text_eq_iff, text_eq_refl}
use trackflow.Notification.Service.{
  DedupState, positive_window, remove, cleanup_expired, reserve_dedup_key, release_dedup_key,
}

-- A map holds a key once.
abbrev pub IsMap : List (Text × ℕ) → Type 0
IsMap [] = Unit
IsMap ((k, at) ∷ m) = (lookup k m ≡ none) × IsMap m

-- What is left of an entry at an instant.
abbrev pub live : ℕ → ℕ → Option ℕ → Option ℕ
live now window none = none
live now window (some at) = if leb (at + window) now then none else some at

lookup-remove :
    (k j : Text) (m : List (Text × ℕ))
    → lookup k (remove j m) ≡ (if text_eq k j then none else lookup k m)
unfolding lookup remove
lookup-remove k j [] = ground arith
lookup-remove k j ((i, at) ∷ m) =
    ground (arith, text_eq_iff k j, text_eq_iff i j, text_eq_iff k i, lookup-remove k j m)

lookup-cleanup_expired :
    (now window : ℕ) (k : Text) (m : List (Text × ℕ))
    → IsMap m
    → lookup k (cleanup_expired now window m) ≡ live now window (lookup k m)
unfolding lookup cleanup_expired
lookup-cleanup_expired now window k [] h = refl
lookup-cleanup_expired now window k ((i, at) ∷ m) (missing, h) =
    ground (arith, text_eq_iff k i, lookup-cleanup_expired now window k m h)

IsMap-remove : (j : Text) (m : List (Text × ℕ)) → IsMap m → IsMap (remove j m)
unfolding remove
IsMap-remove j [] h = tt
IsMap-remove j ((i, at) ∷ m) (missing, h) = ground (arith, lookup-remove i j m, IsMap-remove j m h)

IsMap-cleanup_expired :
    (now window : ℕ) (m : List (Text × ℕ)) → IsMap m → IsMap (cleanup_expired now window m)
unfolding cleanup_expired
IsMap-cleanup_expired now window [] h = tt
IsMap-cleanup_expired now window ((i, at) ∷ m) (missing, h) =
    ground (arith, lookup-cleanup_expired now window i m h, IsMap-cleanup_expired now window m h)

module _ (key : Text) (now : ℕ) (d : DedupState) (map_ok : IsMap d.sent_at) where
  -- What an instant leaves of the entry of a key.
  abbrev entry : Text → Option ℕ
  entry k = live now (positive_window d.window) (lookup k d.sent_at)

  -- A reservation is granted exactly if no entry of the key is younger than the window. Granted, it
  -- enters the instant for the key; for every other key, and when refused, it only drops the
  -- entries that have reached the window. The window stays, and the map stays a map.
  pub reserve_dedup_key_lem :
      let (fresh, d') = reserve_dedup_key key now d in
      ((fresh ≡ true) ↔ (entry key ≡ none))
      × ((k : Text) → lookup k d'.sent_at ≡ (if fresh && text_eq k key then some now else entry k))
      × IsMap d'.sent_at
      × (d'.window ≡ d.window)
  unfolding reserve_dedup_key lookup
  reserve_dedup_key_lem =
      let w = positive_window d.window in
      let rest = cleanup_expired now w d.sent_at in
      let kept = IsMap-cleanup_expired now w d.sent_at map_ok in
      (
        ground (arith, lookup-cleanup_expired now w key d.sent_at map_ok),
        λ k. ground (
          arith,
          lookup-cleanup_expired now w key d.sent_at map_ok,
          lookup-cleanup_expired now w k d.sent_at map_ok,
          lookup-remove k key rest,
        ),
        ground
            (arith, kept, IsMap-remove key rest kept, lookup-remove key key rest, text_eq_refl key),
        ground arith,
      )

-- What may happen to the map: a request reserves a key at an instant, or gives one back.
pub data Op : Type 0 where
  reserve : Text → ℕ → Op
  release : Text → Op

-- An operation, with the answer to a reservation.
unfoldable pub step : Op → DedupState → DedupState
step (reserve key now) d = (reserve_dedup_key key now d).1
step (release key) d = release_dedup_key key d

unfoldable pub run : List Op → DedupState → DedupState
run [] d = d
run (op ∷ ops) d = run ops (step op d)

-- The operation neither gives the key back nor happens at or after the instant `end`.
abbrev pub Spares : Text → ℕ → Op → Type 0
Spares key end (reserve k now) = now < end
Spares key end (release k) = k ≢ key

-- The key is held by a reservation at `at`.
abbrev pub IsHeld : Text → ℕ → ℕ → DedupState → Type 0
IsHeld key at window d =
    (lookup key d.sent_at ≡ some at) × IsMap d.sent_at × (positive_window d.window ≡ window)

step-IsHeld :
    (key : Text) (at window : ℕ) (op : Op) (d : DedupState)
    → Spares key (at + window) op
    → IsHeld key at window d
    → IsHeld key at window (step op d)
unfolding step release_dedup_key
step-IsHeld key at window (reserve k now) d early (held, map_ok, w) =
    let (granted, entries, map_ok', same) = reserve_dedup_key_lem k now d map_ok in
    (
      ground (arith, entries key, granted.0, text_eq_iff key k, still),
      map_ok',
      ap positive_window same ∙ w,
    )
  where
    still : live now (positive_window d.window) (lookup key d.sent_at) ≡ some at
    still = rw (held, w) (ground arith)
step-IsHeld key at window (release k) d other (held, map_ok, w) = (
  ground (arith, lookup-remove key k d.sent_at, text_eq_iff key k),
  IsMap-remove k d.sent_at map_ok,
  w,
)

run-IsHeld :
    (key : Text) (at window : ℕ) (ops : List Op) (d : DedupState)
    → All (Spares key (at + window)) ops
    → IsHeld key at window d
    → IsHeld key at window (run ops d)
unfolding run
run-IsHeld key at window [] d spared held = held
run-IsHeld key at window (op ∷ ops) d (spare, spared) held =
    run-IsHeld key at window ops (step op d) spared (step-IsHeld key at window op d spare held)

IsHeld-refused :
    (key : Text) (at window now : ℕ) (d : DedupState)
    → now < at + window
    → IsHeld key at window d
    → (reserve_dedup_key key now d).0 ≡ false
IsHeld-refused key at window now d early (held, map_ok, w) =
    ground (arith, (reserve_dedup_key_lem key now d map_ok).0.0, still)
  where
    still : live now (positive_window d.window) (lookup key d.sent_at) ≡ some at
    still = rw (held, w) (ground arith)

-- A key that was reserved is reserved for no other request before its window has passed, whatever
-- reservations of any key and releases of other keys come between, as long as no request gives this
-- key back and the clock does not reach the end of the window.
pub reserved_until_window :
    (key : Text) (at now : ℕ) (ops : List Op) (d : DedupState)
    → IsMap d.sent_at
    → (reserve_dedup_key key at d).0 ≡ true
    → All (Spares key (at + positive_window d.window)) ops
    → now < at + positive_window d.window
    → (reserve_dedup_key key now (run ops (reserve_dedup_key key at d).1)).0 ≡ false
reserved_until_window key at now ops d map_ok granted spared early =
    let (answer, entries, map_ok', same) = reserve_dedup_key_lem key at d map_ok in
    let held : IsHeld key at (positive_window d.window) (reserve_dedup_key key at d).1 =
      (ground (arith, entries key, text_eq_refl key), map_ok', ap positive_window same) in
    let (held', map_ok'', w) = run-IsHeld key at (positive_window d.window) ops _ spared held in
    IsHeld-refused key at (positive_window d.window) now _ early (held', map_ok'', w)
