-- ===== src/Tracking/Status/Lifecycle.antt =====
-- The life of an order that state_machine.go enforces, as a relation between five states.
use trackflow.Prelude.{
  ℕ, ◌<◌, Bool, true, false, ◌≡◌, ◌≢◌, refl, ◌∙◌, ap, Option, none, some, [], ◌∷◌, arith,
  Bool-cases, inl, inr, ◌⊎◌, Option-cases, Result, ok, err, if◌then◌else◌, ◌≤◌,
}
use trackflow.Text.{Text, text_eq, trim_space, to_lower, lookup, contains}
use trackflow.Text.Laws.{text_eq_iff}
use trackflow.Tracking.Error.{Error, invalid_status, transition_not_allowed}
use trackflow.Tracking.Status.{
  status_created, status_assigned, status_in_transit, status_delivered, status_cancelled,
  normalize_status, validate_status_transition, or_empty, allowed_transitions,
}

pub data Status : Type 0 where
  created assigned in_transit delivered cancelled : Status

abbrev pub name : Status → Text
name created = status_created
name assigned = status_assigned
name in_transit = status_in_transit
name delivered = status_delivered
name cancelled = status_cancelled

infix 40 ◌⟶◌
pub data ◌⟶◌ : Status → Status → Type 0 where
  assign : created ⟶ assigned
  call_off : created ⟶ cancelled
  pick_up : assigned ⟶ in_transit
  give_up : assigned ⟶ cancelled
  deliver : in_transit ⟶ delivered

-- How the services read a status that somebody sends.
abbrev pub canonical : Text → Text
canonical status = to_lower (trim_space status)

parse : Text → Option Status
parse k =
    if text_eq k status_created
    then some created
    else if text_eq k status_assigned
    then some assigned
    else if text_eq k status_in_transit
    then some in_transit
    else if text_eq k status_delivered
    then some delivered
    else if text_eq k status_cancelled
    then some cancelled
    else none

parse-name : (k : Text) (s : Status) → parse k ≡ some s → k ≡ name s
unfolding parse
parse-name k s h = ground (
  arith,
  text_eq_iff k status_created,
  text_eq_iff k status_assigned,
  text_eq_iff k status_in_transit,
  text_eq_iff k status_delivered,
  text_eq_iff k status_cancelled,
)

name-parse : (s : Status) → parse (name s) ≡ some s
unfolding parse text_eq
name-parse created = refl
name-parse _ = refl

-- `normalize_status` accepts what `parse` reads.
normalize_status-parse :
    (x : Text)
    → normalize_status x
      ≡ (elim (parse (canonical x)) [ none ↦ err (invalid_status x) | some _ ↦ ok (canonical x) ])
unfolding normalize_status parse
normalize_status-parse x = ground arith

parse_cases :
    (x : Text)
    → ((parse (canonical x) ≡ none) × (normalize_status x ≡ err (invalid_status x)))
      ⊎ ((s : Status) × (canonical x ≡ name s) × (normalize_status x ≡ ok (name s)))
parse_cases x = elim (Option-cases (parse (canonical x))) [
  | inl missing ↦ inl (missing, normalize_status-parse x ∙ rw missing)
  | inr (s, found) ↦
      let same = parse-name _ s found in
      inr (s, same, normalize_status-parse x ∙ (rw found (ap ok same)))
]

allows : Status → Status → Bool
allows created assigned = true
allows created cancelled = true
allows assigned in_transit = true
allows assigned cancelled = true
allows in_transit delivered = true
allows _ _ = false

allows_sound : (s t : Status) → allows s t ≡ true → s ⟶ t
unfolding allows
allows_sound created assigned h = assign
allows_sound created cancelled h = call_off
allows_sound assigned in_transit h = pick_up
allows_sound assigned cancelled h = give_up
allows_sound in_transit delivered h = deliver
allows_sound _ _ h = cc

allows_complete : {s t : Status} → s ⟶ t → allows s t ≡ true
unfolding allows
allows_complete assign = refl
allows_complete _ = refl

-- The set that the map holds for a status, tested for another.
table :
    (s t : Status) → contains (or_empty (lookup (name s) allowed_transitions)) (name t) ≡ allows s t
unfolding lookup contains text_eq allows
table created created = refl
table created _ = refl
table assigned created = refl
table assigned _ = refl
table in_transit created = refl
table in_transit _ = refl
table delivered created = refl
table delivered _ = refl
table cancelled created = refl
table cancelled _ = refl

validate-names :
    (s t : Status) (c n : Text)
    → normalize_status c ≡ ok (name s)
    → normalize_status n ≡ ok (name t)
    → validate_status_transition c n
      ≡ (if allows s t then ok tt else err (transition_not_allowed (name s) (name t)))
validate-names s t c n hc hn = unfold validate_status_transition in (rw (hc, hn) (rw (table s t)))

-- What `validate_status_transition` answers, by what the two texts stand for.
pub data Verdict (c n : Text) : Result Error (Unit {0}) → Type 0 where
  allowed :
      (s t : Status) → canonical c ≡ name s → canonical n ≡ name t → s ⟶ t → Verdict c n (ok tt)
  forbidden :
      (s t : Status)
      → canonical c ≡ name s
      → canonical n ≡ name t
      → ¬ (s ⟶ t)
      → Verdict c n (err (transition_not_allowed (name s) (name t)))
  bad_current : ((s : Status) → canonical c ≢ name s) → Verdict c n (err (invalid_status c))
  bad_next :
      (s : Status)
      → canonical c ≡ name s
      → ((t : Status) → canonical n ≢ name t)
      → Verdict c n (err (invalid_status n))

none_of_names : (x : Text) → parse (canonical x) ≡ none → (s : Status) → canonical x ≢ name s
none_of_names x h s e = cc (name-parse s, ap parse e)

judge :
    (c n : Text) (s t : Status)
    → canonical c ≡ name s
    → canonical n ≡ name t
    → Verdict c n (if allows s t then ok tt else err (transition_not_allowed (name s) (name t)))
judge c n s t hc hn = elim (Bool-cases (allows s t)) [
  | inl may ↦ rw may (allowed s t hc hn (allows_sound s t may))
  | inr not_ ↦ rw not_ (forbidden s t hc hn (λ step. cc (allows_complete step)))
]

validate-bad_current :
    (c n : Text) {e : Error} → normalize_status c ≡ err e → validate_status_transition c n ≡ err e
unfolding validate_status_transition
validate-bad_current c n h = rw h

validate-bad_next :
    (c n : Text) {k : Text} {e : Error}
    → normalize_status c ≡ ok k
    → normalize_status n ≡ err e
    → validate_status_transition c n ≡ err e
unfolding validate_status_transition
validate-bad_next c n hc hn = rw (hc, hn)

-- Every answer of the transition check is the one that the relation of the five states gives:
-- success exactly on an edge between the states that the two trimmed, lower-cased texts name, and
-- otherwise the error for an unknown current status, an unknown next status, or a missing edge.
pub validate_status_transition-Verdict : (c n : Text) → Verdict c n (validate_status_transition c n)
validate_status_transition-Verdict c n = elim (parse_cases c) [
  | inl (missing, refused) ↦
      rw (validate-bad_current c n refused) (bad_current (none_of_names c missing))
  | inr (s, hc, read_c) ↦ elim (parse_cases n) [
    | inl (missing, refused) ↦
        rw (validate-bad_next c n read_c refused) (bad_next s hc (none_of_names n missing))
    | inr (t, hn, read_n) ↦ rw (validate-names s t c n read_c read_n) (judge c n s t hc hn)
  ]
]

unlabelled :
    (x : Text)
    → parse x ≡ none
    → contains
        (status_created ∷ status_assigned ∷ status_in_transit ∷ status_delivered ∷ status_cancelled
          ∷ [])
        x
      ≡ false
unfolding parse contains
unlabelled x h = ground arith

-- A label of the enum of the five statuses is the name of one.
pub label-name :
    (x : Text)
    → contains
        (status_created ∷ status_assigned ∷ status_in_transit ∷ status_delivered ∷ status_cancelled
          ∷ [])
        x
      ≡ true
    → (t : Status) × (x ≡ name t)
label-name x h = elim (Option-cases (parse x)) [
  | inl missing ↦ cc (unlabelled x missing)
  | inr (t, found) ↦ (t, parse-name x t found)
]

canonical-name : (t : Status) → canonical (name t) ≡ name t
unfolding trim_space to_lower
canonical-name created = refl
canonical-name _ = refl

pub normalize_status-name : (t : Status) → normalize_status (name t) ≡ ok (name t)
unfolding normalize_status text_eq trim_space to_lower
normalize_status-name created = refl
normalize_status-name _ = refl

-- Between stored statuses the check lets exactly the steps of the relation through.
pub step_of_ok : (a t : Status) → validate_status_transition (name a) (name t) ≡ ok tt → a ⟶ t
step_of_ok a t h = elim (Bool-cases (allows a t)) [
  | inl may ↦ allows_sound a t may
  | inr never ↦ cc (h, refused never)
]
  where
    refused :
        allows a t ≡ false
        → validate_status_transition (name a) (name t)
          ≡ err (transition_not_allowed (name a) (name t))
    refused never =
        validate-names a t (name a) (name t) (normalize_status-name a) (normalize_status-name t)
        ∙ rw never

infix 40 ◌⟶*◌
pub data ◌⟶*◌ : Status → Status → Type 0 where
  here : {s : Status} → s ⟶* s
  after_step : {s t u : Status} → s ⟶ t → t ⟶* u → s ⟶* u

-- How far an order has come; every step raises it.
abbrev pub stage : Status → ℕ
stage created = 0
stage assigned = 1
stage in_transit = 2
stage delivered = 3
stage cancelled = 3

pub stage-step : {s t : Status} → s ⟶ t → stage s < stage t
stage-step assign = omega arith
stage-step call_off = omega arith
stage-step pick_up = omega arith
stage-step give_up = omega arith
stage-step deliver = omega arith

pub stage-le : (s : Status) → stage s ≤ 3
stage-le created = omega arith
stage-le _ = omega arith

-- There is no way on from the last stage.
pub way_of_last : {s t : Status} → stage s ≡ 3 → s ⟶* t → s ≡ t
way_of_last last here = refl
way_of_last last (after_step {s} {t} step way) = absurd (omega (arith, stage-step step, stage-le t))
