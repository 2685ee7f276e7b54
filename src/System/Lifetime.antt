-- ===== src/System/Lifetime.antt =====
-- The statuses of an order under both services.
use trackflow.Prelude.{[], ◌∷◌, List, arith, refl, ℕ, inl, inr, Bool-cases, length, ◌≤◌, ◌+◌}
use trackflow.Text.{Text, text_eq}
use trackflow.Text.Laws.{text_eq_iff}
use trackflow.Database.{Postgres, OrderRow, HistoryRow, Database, Session}
use trackflow.Database.Orders.{find_order-update_order, find_order-append}
use trackflow.Tracking.Repository.{TrackingRepository, history_of}
use trackflow.Tracking.Repository.Journal.{moved}
use trackflow.Tracking.Repository.Lifetime.{StandsAt, Change, kept, stepped, history_of-append}
use trackflow.Tracking.Status.Lifecycle.{Status, ◌⟶*◌, stage, stage-step, here, after_step}
use trackflow.Order.Repository.{OrderRepository}
use trackflow.System.{Call, perform, perform_all}
use trackflow.System.Effect.{Effect, same, added, moved_on, IsMoved, perform-Effect}

module _ (k : Text) (a : Status) (before : Database) where
  IsMoved-Change :
      (row : OrderRow) (next : _) (now : ℕ) (entry : HistoryRow) (after : Database)
      → IsMoved before row next now entry after
      → StandsAt k before a
      → Change k a before after
  IsMoved-Change row next now entry after m (at_row, found, at) =
      let grown = history_of-append k before.history entry in
      let read =
        find_order-update_order entry.order_id k (moved next now) before.orders (λ row. refl) in
      elim (Bool-cases (text_eq entry.order_id k)) [
        | inl same_order ↦
            let this = (text_eq_iff entry.order_id k).0 same_order in
            let (b, named, step) = m.leads a (cc) in
            stepped b step
              (
                moved next now row,
                ground (arith, read, m.orders, m.found, text_eq_iff k entry.order_id),
                named,
              )
              (ground (arith, grown, m.history))
        | inr other ↦
            kept
              (
                at_row,
                ground (
                  arith,
                  read,
                  m.orders,
                  text_eq_iff k entry.order_id,
                  text_eq_iff entry.order_id k,
                ),
                at,
              )
              (ground (arith, grown, m.history))
      ]

  -- An order that stands at a status keeps it, or goes one legal step with one more history row.
  Effect-Change :
      {after : Database} → Effect before after → StandsAt k before a → Change k a before after
  Effect-Change (same after unchanged) at = rw unchanged (kept at refl)
  Effect-Change (added row after n) (at_row, found, at) =
      kept (at_row, rw (n.orders) (find_order-append k before.orders (row ∷ []) at_row found), at)
        (rw (n.history) refl)
  Effect-Change (moved_on row next now entry after m) at =
      IsMoved-Change row next now entry after m at

module _ (pg : Postgres) (orders : OrderRepository) (tracking : TrackingRepository) where
  -- Where any calls of both services, failed ones included, leave an order that stands at a
  -- status: at a status that the life cycle reaches from there, with no row less in its history,
  -- and with no more new rows than the stages that it has passed.
  pub perform_all-StandsAt :
      (cs : List Call) (s : Session) (k : Text) (a : Status)
      → StandsAt k s.database a
      → let after = (perform_all pg orders tracking cs s).database in
        (b : Status) × StandsAt k after b
        × (a ⟶* b)
        × (length (history_of k s.database.history) ≤ length (history_of k after.history))
        × (length (history_of k after.history) + stage a
            ≤ length (history_of k s.database.history) + stage b)
  unfolding perform_all
  perform_all-StandsAt [] s k a at = (a, at, here, omega arith, omega arith)
  perform_all-StandsAt (c ∷ cs) s k a at =
      elim (Effect-Change k a s.database (perform-Effect pg orders tracking s c) at) [
        | kept at' unchanged ↦
            let (b, end, way, more, bound) =
              perform_all-StandsAt cs (perform pg orders tracking c s) k a at' in
            (b, end, way, omega arith, omega arith)
        | stepped t step at' grown ↦
            let (b, end, way, more, bound) =
              perform_all-StandsAt cs (perform pg orders tracking c s) k t at' in
            (b, end, after_step step way, omega arith, omega (arith, stage-step step))
      ]
