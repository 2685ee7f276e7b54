-- ===== src/Notification/Event/Key.antt =====
-- When two events have one deduplication key.
use trackflow.Prelude.{◌≡◌, All, ◌↔◌, ◌++◌, ◌∷◌, ◌≢◌, [], refl, arith}
use trackflow.Text.{Text}
use trackflow.Notification.Event.{Event, build_dedup_key, canonical, bar, joined}

-- No code point of the text is the separator of the key's parts.
abbrev pub NoBar : Text → Type 0
NoBar s = All (λ c. c ≢ b'|') s

parts_of_joined :
    (a a' r r' : Text)
    → NoBar a
    → NoBar a'
    → a ++ (b'|' ∷ r) ≡ a' ++ (b'|' ∷ r')
    → (a ≡ a') × (r ≡ r')
parts_of_joined [] [] r r' h h' e = (refl, cc)
parts_of_joined [] (c ∷ a') r r' h h' e = ground (arith, h'.0)
parts_of_joined (c ∷ a) [] r r' h h' e = ground (arith, h.0)
parts_of_joined (c ∷ a) (c' ∷ a') r r' h h' e =
    let (same, rest) = parts_of_joined a a' r r' h.1 h'.1 (cc) in (cc, rest)

-- The separator keeps the parts of a key apart where they do not hold it themselves: two events
-- whose trimmed, lower-cased order ids, statuses and channels are free of "|" have one key exactly
-- if these three and the recipients agree up to case and surrounding space.
pub build_dedup_key_iff :
    (e e' : Event)
    → NoBar (canonical e.order_id)
    → NoBar (canonical e.status)
    → NoBar (canonical e.channel)
    → NoBar (canonical e'.order_id)
    → NoBar (canonical e'.status)
    → NoBar (canonical e'.channel)
    → (build_dedup_key e ≡ build_dedup_key e') ↔ (
        (canonical e.order_id ≡ canonical e'.order_id)
        × (canonical e.status ≡ canonical e'.status)
        × (canonical e.channel ≡ canonical e'.channel)
        × (canonical e.recipient ≡ canonical e'.recipient))
unfolding build_dedup_key joined bar
build_dedup_key_iff e e' o s c o' s' c' = (
  λ h.
      let (one, rest) = parts_of_joined _ _ _ _ o o' h in
      let (two, rest') = parts_of_joined _ _ _ _ s s' rest in
      let (three, four) = parts_of_joined _ _ _ _ c c' rest' in (one, two, three, four),
  λ h. cc (h.0, h.1, h.2, h.3),
)
