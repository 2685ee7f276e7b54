-- ===== src/Metrics/Coherence.antt =====
-- The entries of the metrics as a map.
use mathlib.Core.List.{Permᴰ}
use mathlib.Core.Path.{subst}
use trackflow.Prelude.{
  ◌≡◌, List, [], ◌∷◌, ◌+◌, ◌%◌, ◌^◌, false, arith, ◌∙◌, Bool-cases, inl, inr, All, ℕ,
}
use trackflow.Metrics.{
  MetricKey, MetricAggregate, HttpMetrics, key_eq, aggregate_at, set_aggregate, observe, counted,
}
use trackflow.Metrics.Order.{key_eq_sym}
use trackflow.Metrics.Totals.{Observation, observe_all}

abbrev pub Entries : Type 0
Entries = List (MetricKey × MetricAggregate)

-- A map: no key stands twice.
abbrev pub IsFresh : MetricKey → Entries → Type 0
IsFresh key entries = All (λ e. key_eq key e.0 ≡ false) entries

abbrev pub IsMap : Entries → Type 0
IsMap [] = Unit
IsMap (e ∷ entries) = IsFresh e.0 entries × IsMap entries

abbrev pub count_of : Entries → ℕ
count_of [] = 0
count_of (e ∷ entries) = e.1.count + count_of entries

IsFresh-set :
    (other key : MetricKey) (agg : MetricAggregate) (entries : Entries)
    → key_eq other key ≡ false
    → IsFresh other entries
    → IsFresh other (set_aggregate key agg entries)
unfolding set_aggregate
IsFresh-set other key agg [] different fresh = (different, tt)
IsFresh-set other key agg ((k, old) ∷ entries) different fresh = elim (Bool-cases (key_eq k key)) [
  | inl found ↦ rw found fresh
  | inr passed ↦ rw passed (fresh.0, IsFresh-set other key agg entries different fresh.1)
]

IsMap-set :
    (key : MetricKey) (agg : MetricAggregate) (entries : Entries)
    → IsMap entries
    → IsMap (set_aggregate key agg entries)
unfolding set_aggregate
IsMap-set key agg [] distinct = (tt, tt)
IsMap-set key agg ((k, old) ∷ entries) distinct = elim (Bool-cases (key_eq k key)) [
  | inl found ↦ rw found distinct
  | inr passed ↦
      rw passed
        (IsFresh-set k key agg entries passed distinct.0, IsMap-set key agg entries distinct.1)
]

-- The counts of all keys behind a write.
count_of-set :
    (key : MetricKey) (agg : MetricAggregate) (entries : Entries)
    → count_of (set_aggregate key agg entries) + (aggregate_at key entries).count
      ≡ count_of entries + agg.count
unfolding set_aggregate aggregate_at
count_of-set key agg [] = omega arith
count_of-set key agg ((k, old) ∷ entries) = elim (Bool-cases (key_eq k key)) [
  | inl found ↦ rw found (omega arith)
  | inr passed ↦ rw passed (omega (arith, count_of-set key agg entries))
]

-- The counts of the keys and the count of all requests.
abbrev pub IsCoherent : HttpMetrics → Type 0
IsCoherent m = IsMap m.by_key × (m.total_count % 2 ^ 64 ≡ count_of m.by_key % 2 ^ 64)

observe-IsCoherent :
    (key : MetricKey) (duration : ℕ) (m : HttpMetrics)
    → IsCoherent m
    → IsCoherent (observe key duration m)
unfolding observe
observe-IsCoherent key duration m (distinct, total) =
    let written = count_of-set key (counted duration (aggregate_at key m.by_key)) m.by_key in
    (IsMap-set key _ m.by_key distinct, omega arith)

-- After any requests the entries are a map, and their counts add up to the count of all requests.
pub observe_all-IsCoherent :
    (os : List Observation) (m : HttpMetrics) → IsCoherent m → IsCoherent (observe_all os m)
observe_all-IsCoherent [] m h = h
observe_all-IsCoherent (o ∷ os) m h =
    observe_all-IsCoherent os (observe o.key o.duration m) (observe-IsCoherent o.key o.duration m h)

IsFresh-perm :
    (key : MetricKey) {entries entries' : Entries}
    → Permᴰ entries entries'
    → IsFresh key entries
    → IsFresh key entries'
IsFresh-perm key Permᴰ.nil fresh = tt
IsFresh-perm key (Permᴰ.cons same perm) fresh = (rw (← same) fresh.0, IsFresh-perm key perm fresh.1)
IsFresh-perm key (Permᴰ.swap same same') fresh =
    (rw (← same') fresh.1.0, (rw (← same) fresh.0, fresh.1.1))
IsFresh-perm key (Permᴰ.trans perm perm') fresh =
    IsFresh-perm key perm' (IsFresh-perm key perm fresh)

pub IsMap-perm :
    {entries entries' : Entries} → Permᴰ entries entries' → IsMap entries → IsMap entries'
IsMap-perm Permᴰ.nil distinct = tt
IsMap-perm (Permᴰ.cons same perm) distinct =
    (IsFresh-perm _ perm (rw same at distinct.0), IsMap-perm perm distinct.1)
IsMap-perm (Permᴰ.swap {a} {b} {l = l} same same') distinct = (
  (
    rw (← same, ← same') (key_eq_sym b.0 a.0 ∙ distinct.0.0),
    subst (λ x. IsFresh x.0 l) same' distinct.1.0,
  ),
  (subst (λ x. IsFresh x.0 l) same distinct.0.1, distinct.1.1),
)
IsMap-perm (Permᴰ.trans perm perm') distinct = IsMap-perm perm' (IsMap-perm perm distinct)
