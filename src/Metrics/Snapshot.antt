-- ===== src/Metrics/Snapshot.antt =====
-- What a snapshot shows after some requests.
use mathlib.Core.List.{Permᴰ}
use trackflow.Prelude.{
  ◌≡◌, List, [], ◌∷◌, ◌+◌, ◌%◌, ◌^◌, true, false, arith, refl, ap, ◌∙◌, Bool-cases, inl, inr, map,
  sym, All, ℕ,
}
use trackflow.Metrics.{
  MetricKey, MetricAggregate, Milliseconds, RouteMetric, key_eq, key_ltb, new_http_metrics,
  snapshot, insert_route, sort_routes, route_metric,
}
use trackflow.Metrics.Order.{key_ltb_asym, key_ltb_total, key_ltb_trans, key_eq_sym}
use trackflow.Metrics.Totals.{Observation, observe_all}
use trackflow.Metrics.Coherence.{
  Entries, IsFresh, IsMap, count_of, IsMap-perm, observe_all-IsCoherent,
}

module _ {F : Type 0} (ms : Milliseconds F) where
  abbrev Routes : Type 0
  Routes = List (RouteMetric ms)

  abbrev IsBelow : MetricKey → Routes → Type 0
  IsBelow key routes = All (λ r. key_ltb key r.key ≡ true) routes

  abbrev pub IsAscending : Routes → Type 0
  IsAscending [] = Unit
  IsAscending (r ∷ routes) = IsBelow r.key routes × IsAscending routes

  abbrev IsOther : MetricKey → Routes → Type 0
  IsOther key routes = All (λ r. key_eq key r.key ≡ false) routes

  abbrev pub requests_of : Routes → ℕ
  requests_of [] = 0
  requests_of (r ∷ routes) = r.requests + requests_of routes

  All-insert :
      (P : RouteMetric ms → Type 0) (r : RouteMetric ms) (routes : Routes)
      → P r
      → All P routes
      → All P (insert_route ms r routes)
  unfolding insert_route
  All-insert P r [] p h = (p, tt)
  All-insert P r (s ∷ routes) p h = elim (Bool-cases (key_ltb s.key r.key)) [
    | inl before ↦ rw before (h.0, All-insert P r routes p h.1)
    | inr after ↦ rw after (p, h)
  ]

  IsBelow-trans :
      (a b : MetricKey) (routes : Routes) → key_ltb a b ≡ true → IsBelow b routes → IsBelow a routes
  IsBelow-trans a b [] h below = tt
  IsBelow-trans a b (s ∷ routes) h below =
      (key_ltb_trans a b s.key h below.0, IsBelow-trans a b routes h below.1)

  insert_route-IsAscending :
      (r : RouteMetric ms) (routes : Routes)
      → IsOther r.key routes
      → IsAscending routes
      → IsAscending (insert_route ms r routes)
  unfolding insert_route
  insert_route-IsAscending r [] other asc = (tt, tt)
  insert_route-IsAscending r (s ∷ routes) other asc = elim (Bool-cases (key_ltb s.key r.key)) [
    | inl before ↦ rw before (
      All-insert (λ x. key_ltb s.key x.key ≡ true) r routes before asc.0,
      insert_route-IsAscending r routes other.1 asc.1,
    )
    | inr after ↦
        let less : key_ltb r.key s.key ≡ true =
          key_ltb_total s.key r.key after (key_eq_sym s.key r.key ∙ other.0) in
        rw after ((less, IsBelow-trans r.key s.key routes less asc.0), asc)
  ]

  requests_of-insert :
      (r : RouteMetric ms) (routes : Routes)
      → requests_of (insert_route ms r routes) ≡ r.requests + requests_of routes
  unfolding insert_route
  requests_of-insert r [] = refl
  requests_of-insert r (s ∷ routes) = elim (Bool-cases (key_ltb s.key r.key)) [
    | inl before ↦ rw before (omega (arith, requests_of-insert r routes))
    | inr after ↦ rw after refl
  ]

  -- Two routes with different keys go in in either order.
  insert_route_comm :
      (r s : RouteMetric ms) (routes : Routes)
      → key_eq r.key s.key ≡ false
      → insert_route ms r (insert_route ms s routes) ≡ insert_route ms s (insert_route ms r routes)
  unfolding insert_route
  insert_route_comm r s [] different =
      ground (arith, key_ltb_asym r.key s.key, key_ltb_total r.key s.key)
  insert_route_comm r s (x ∷ routes) different = ground (
    arith,
    key_ltb_asym r.key s.key,
    key_ltb_total r.key s.key,
    key_ltb_trans x.key r.key s.key,
    key_ltb_trans x.key s.key r.key,
    insert_route_comm r s routes different,
  )

  IsOther-sort :
      (key : MetricKey) (entries : Entries)
      → IsFresh key entries
      → IsOther key (sort_routes ms (map (route_metric ms) entries))
  unfolding sort_routes route_metric
  IsOther-sort key [] fresh = tt
  IsOther-sort key (e ∷ entries) fresh =
      All-insert (λ r. key_eq key r.key ≡ false) (route_metric ms e) _ fresh.0
        (IsOther-sort key entries fresh.1)

  sort_routes-IsAscending :
      (entries : Entries)
      → IsMap entries
      → IsAscending (sort_routes ms (map (route_metric ms) entries))
  unfolding sort_routes route_metric
  sort_routes-IsAscending [] distinct = tt
  sort_routes-IsAscending (e ∷ entries) distinct =
      insert_route-IsAscending (route_metric ms e) _ (IsOther-sort e.0 entries distinct.0)
        (sort_routes-IsAscending entries distinct.1)

  requests_of-sort :
      (entries : Entries)
      → requests_of (sort_routes ms (map (route_metric ms) entries)) ≡ count_of entries
  unfolding sort_routes route_metric
  requests_of-sort [] = refl
  requests_of-sort (e ∷ entries) =
      requests_of-insert (route_metric ms e) _ ∙ ap (◌+◌ e.1.count) (requests_of-sort entries)

  -- The order of the map is forgotten.
  sort_routes_same :
      {entries entries' : Entries}
      → Permᴰ entries entries'
      → IsMap entries
      → sort_routes ms (map (route_metric ms) entries)
        ≡ sort_routes ms (map (route_metric ms) entries')
  unfolding sort_routes route_metric
  sort_routes_same Permᴰ.nil distinct = refl
  sort_routes_same (Permᴰ.cons {b = b} same perm) distinct =
      rw same (ap (insert_route ms (route_metric ms b)) (sort_routes_same perm distinct.1))
  sort_routes_same (Permᴰ.swap {a} {b} {l = l} same same') distinct =
      rw (← same, ← same')
        (insert_route_comm (route_metric ms a) (route_metric ms b)
          (sort_routes ms (map (route_metric ms) l)) distinct.0.0)
  sort_routes_same (Permᴰ.trans perm perm') distinct =
      sort_routes_same perm distinct ∙ sort_routes_same perm' (IsMap-perm perm distinct)

  -- After any requests, in whatever order the map of the metrics yields its entries: the snapshot
  -- is the same, its routes ascend strictly by route, method and status, and their numbers of
  -- requests add up, up to 64 bits, to the total that it shows.
  pub snapshot_lem :
      (os : List Observation) (entries : List (MetricKey × MetricAggregate))
      → let m = observe_all os new_http_metrics in
        Permᴰ m.by_key entries
        → let shown = snapshot ms (record m { by_key = entries }) in
          (shown ≡ snapshot ms m)
          × IsAscending shown.routes
          × (shown.requests_total % 2 ^ 64 ≡ requests_of shown.routes % 2 ^ 64)
  unfolding snapshot
  snapshot_lem os entries perm =
      let m = observe_all os new_http_metrics in
      let (distinct, total) = observe_all-IsCoherent os new_http_metrics (tt, refl) in
      let same = sort_routes_same perm distinct in
      rw (← same) (
        refl,
        sort_routes-IsAscending m.by_key distinct,
        total ∙ ap (λ n. n % 2 ^ 64) (sym (requests_of-sort m.by_key)),
      )
