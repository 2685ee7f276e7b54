-- ===== src/Tracking/Repository/Lifetime.antt =====
-- The statuses that an order goes through under the updates of tracking_repository.go.
use trackflow.Prelude.{
  ◌≡◌, some, ℕ, length, List, Bool-cases, suc, ◌++◌, inl, ◌∷◌, inr, [], if◌then◌else◌, arith, refl,
  ◌+◌, Result, ◌≤◌, ok, err, ap,
}
use trackflow.Text.{Text, text_eq}
use trackflow.Text.Laws.{text_eq_iff}
use trackflow.Database.{Session, Postgres, Database, find_order, OrderRow, HistoryRow}
use trackflow.Database.Orders.{find_order-update_order}
use trackflow.Tracking.Repository.{TrackingRepository, update_order_status, history_of}
use trackflow.Tracking.Repository.Journal.{
  IsMove, update_order_status-IsMove, update_order_status-err, moved, entry_of,
}
use trackflow.Tracking.Status.Lifecycle.{
  Status, name, ◌⟶◌, label-name, step_of_ok, ◌⟶*◌, stage, stage-step, here, after_step, way_of_last,
}
use trackflow.Tracking.Error.{Error}
use trackflow.Tracking.Model.{StatusHistoryItem}

-- The order `k` has the status `a`.
abbrev pub StandsAt : Text → Database → Status → Type 0
StandsAt k d a = (row : OrderRow) × (find_order k d.orders ≡ some row) × (row.status ≡ name a)

-- What a call does to the order `k` of status `a`: nothing, or one legal step with one more row in
-- its history.
pub data Change (k : Text) (a : Status) (before after : Database) : Type 0 where
  kept :
      StandsAt k after a
      → length (history_of k after.history) ≡ length (history_of k before.history)
      → Change k a before after
  stepped :
      (b : Status)
      → a ⟶ b
      → StandsAt k after b
      → length (history_of k after.history) ≡ suc (length (history_of k before.history))
      → Change k a before after

pub history_of-append :
    (k : Text) (rows : List HistoryRow) (entry : HistoryRow)
    → length (history_of k (rows ++ entry ∷ [])) ≡ (
        if text_eq entry.order_id k
        then suc (length (history_of k rows))
        else length (history_of k rows))
unfolding history_of
history_of-append k [] entry = ground arith
history_of-append k (row ∷ rows) entry = ground (arith, history_of-append k rows entry)

module _ (pg : Postgres) (order_id next source comment metadata : Text) where
  IsMove-Change :
      (before after : Database) (now drawn : ℕ) (item : _) (k : Text) (a : Status)
      → IsMove pg order_id next source comment metadata before now drawn item after
      → StandsAt k before a
      → Change k a before after
  IsMove-Change before after now drawn item k a m (row, found, at) =
      let grown =
        history_of-append k before.history
          (entry_of pg now drawn m.id next source comment metadata) in
      let read = find_order-update_order m.id k (moved next now) before.orders (λ row. refl) in
      elim (Bool-cases (text_eq m.id k)) [
        | inl same ↦
            let here = (text_eq_iff m.id k).0 same in
            let (b, named) = label-name next m.labelled in
            stepped b (step_of_ok a b (cc))
              (moved next now row, ground (arith, read, text_eq_iff k m.id), named)
              (ground (arith, grown))
        | inr other ↦
            kept (row, ground (arith, read, text_eq_iff k m.id, text_eq_iff m.id k), at)
              (ground (arith, grown))
      ]

  -- A status update, whatever it answers, leaves the status and the history of an order alone or
  -- moves it one step of the life cycle with one more row in its history.
  pub update_order_status-Change :
      (r : TrackingRepository) (s : Session) (k : Text) (a : Status)
      → StandsAt k s.database a
      → Change k a s.database
          (update_order_status pg r order_id next source comment metadata s).1.database
  update_order_status-Change r s k a at =
      outcome (update_order_status pg r order_id next source comment metadata s).0 refl
    where
      outcome :
          (o : Result Error StatusHistoryItem)
          → (update_order_status pg r order_id next source comment metadata s).0 ≡ o
          → Change k a s.database
              (update_order_status pg r order_id next source comment metadata s).1.database
      outcome (ok item) e =
          IsMove-Change s.database _ s.now s.drawn item k a
            (update_order_status-IsMove pg order_id next source comment metadata r s e) at
      outcome (err e') e =
          elim (update_order_status-err pg order_id next source comment metadata r s e) [
            | inl same ↦ rw same (kept at refl)
            | inr unseen ↦ IsMove-Change s.database _ s.now s.drawn unseen.item k a unseen.move at
          ]

-- A call of the repository.
pub record Call : Type 0 where
  pub order_id : Text
  pub next : Text
  pub source : Text
  pub comment : Text
  pub metadata : Text

module _ (pg : Postgres) (r : TrackingRepository) where
  pub perform : Call → Session → Session
  perform c s = (update_order_status pg r c.order_id c.next c.source c.comment c.metadata s).1

  pub perform_all : List Call → Session → Session
  perform_all [] s = s
  perform_all (c ∷ cs) s = perform_all cs (perform c s)

  -- Where any sequence of status updates, failed ones included, leaves an order that stands at a
  -- status: at a status that the life cycle reaches from there, with no row less in its history,
  -- and with no more new rows than the stages that it has passed.
  pub perform_all-lifetime :
      (cs : List Call) (s : Session) (k : Text) (a : Status)
      → StandsAt k s.database a
      → let before = length (history_of k s.database.history) in
        let after = length (history_of k (perform_all cs s).database.history) in
        (b : Status) × StandsAt k (perform_all cs s).database b
        × (a ⟶* b)
        × (before ≤ after)
        × (after + stage a ≤ before + stage b)
  unfolding perform_all perform
  perform_all-lifetime [] s k a at = (a, at, here, omega arith, omega arith)
  perform_all-lifetime (c ∷ cs) s k a at =
      elim (update_order_status-Change pg c.order_id c.next c.source c.comment c.metadata r s k a
        at) [
          | kept at' same ↦
              let (b, end, way, more, bound) = perform_all-lifetime cs (perform c s) k a at' in
              (b, end, way, omega arith, omega arith)
          | stepped t step at' grown ↦
              let (b, end, way, more, bound) = perform_all-lifetime cs (perform c s) k t at' in
              (b, end, after_step step way, omega arith, omega (arith, stage-step step))
        ]

  -- An order that is delivered or cancelled keeps its status, and the number of rows in its
  -- history, under every sequence of status updates.
  pub perform_all_terminal :
      (cs : List Call) (s : Session) (k : Text) (a : Status)
      → stage a ≡ 3
      → StandsAt k s.database a
      → StandsAt k (perform_all cs s).database a
        × (length (history_of k (perform_all cs s).database.history)
            ≡ length (history_of k s.database.history))
  perform_all_terminal cs s k a last at =
      let (b, end, way, more, bound) = perform_all-lifetime cs s k a at in
      let same = way_of_last last way in (rw same end, omega (arith, ap stage same))
