-- ===== src/System/Journal.antt =====
-- The history of an order tells its status.
use trackflow.Prelude.{
  ◌≡◌, ◌++◌, [], ◌∷◌, List, some, arith, refl, sym, ◌∙◌, ℕ, inl, inr, Bool-cases, if◌then◌else◌,
}
use trackflow.Text.{Text, text_eq}
use trackflow.Text.Laws.{text_eq_iff}
use trackflow.Database.{Postgres, OrderRow, HistoryRow, Database, Session, find_order}
use trackflow.Database.Orders.{find_order-update_order, find_order-append}
use trackflow.Tracking.Repository.{TrackingRepository, history_of}
use trackflow.Tracking.Repository.Journal.{moved}
use trackflow.Tracking.Status.Lifecycle.{Status, name}
use trackflow.Order.Repository.{OrderRepository}
use trackflow.System.{Call, perform, perform_all}
use trackflow.System.Effect.{Effect, same, added, moved_on, IsMoved, perform-Effect}

-- The status that a history tells: that of its last row, and created without one.
unfoldable pub told : List HistoryRow → Text
told [] = name Status.created
told (row ∷ []) = row.status
told (row ∷ next ∷ rows) = told (next ∷ rows)

told-append :
    (rows : List HistoryRow) (entry : HistoryRow) → told (rows ++ entry ∷ []) ≡ entry.status
unfolding told
told-append [] entry = refl
told-append (row ∷ []) entry = refl
told-append (row ∷ next ∷ rows) entry = told-append (next ∷ rows) entry

history_of-append_row :
    (k : Text) (rows : List HistoryRow) (entry : HistoryRow)
    → history_of k (rows ++ entry ∷ [])
      ≡ (if text_eq entry.order_id k then history_of k rows ++ entry ∷ [] else history_of k rows)
unfolding history_of
history_of-append_row k [] entry = ground arith
history_of-append_row k (row ∷ rows) entry = ground (arith, history_of-append_row k rows entry)

-- The order is there, and its status is the one that its history tells.
abbrev pub IsJournalled : Text → Database → Type 0
IsJournalled k d =
    (row : OrderRow) × (find_order k d.orders ≡ some row)
    × (row.status ≡ told (history_of k d.history))

module _ (k : Text) (before : Database) where
  IsMoved-IsJournalled :
      (row : OrderRow) (next : Text) (now : ℕ) (entry : HistoryRow) (after : Database)
      → IsMoved before row next now entry after
      → IsJournalled k before
      → IsJournalled k after
  IsMoved-IsJournalled row next now entry after m (old, found, at) =
      let grown = history_of-append_row k before.history entry in
      let read =
        find_order-update_order entry.order_id k (moved next now) before.orders (λ row. refl) in
      elim (Bool-cases (text_eq entry.order_id k)) [
        | inl this ↦ (
          moved next now old,
          ground (
            arith,
            read,
            m.orders,
            found,
            this,
            text_eq_iff k entry.order_id,
            text_eq_iff entry.order_id k,
          ),
          rw (m.history, grown, this)
              (sym (told-append (history_of k before.history) entry ∙ m.entry_status)),
        )
        | inr other ↦ (
          old,
          ground (
            arith,
            read,
            m.orders,
            found,
            other,
            text_eq_iff k entry.order_id,
            text_eq_iff entry.order_id k,
          ),
          rw (m.history, grown, other) at,
        )
      ]

  Effect-IsJournalled :
      {after : Database} → Effect before after → IsJournalled k before → IsJournalled k after
  Effect-IsJournalled (same after unchanged) told_so = rw unchanged told_so
  Effect-IsJournalled (added row after n) (old, found, at) = (
    old,
    rw (n.orders) (find_order-append k before.orders (row ∷ []) old found),
    rw (n.history) at,
  )
  Effect-IsJournalled (moved_on row next now entry after m) told_so =
      IsMoved-IsJournalled row next now entry after m told_so

module _ (pg : Postgres) (orders : OrderRepository) (tracking : TrackingRepository) where
  -- An order whose status is the one that its history tells, as that of a new order without
  -- history is, stays so under any calls of both services, failed ones included.
  pub perform_all-IsJournalled :
      (cs : List Call) (s : Session) (k : Text)
      → IsJournalled k s.database
      → IsJournalled k (perform_all pg orders tracking cs s).database
  unfolding perform_all
  perform_all-IsJournalled [] s k told_so = told_so
  perform_all-IsJournalled (c ∷ cs) s k told_so =
      perform_all-IsJournalled cs (perform pg orders tracking c s) k
        (Effect-IsJournalled k s.database (perform-Effect pg orders tracking s c) told_so)
