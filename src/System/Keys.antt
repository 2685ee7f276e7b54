-- ===== src/System/Keys.antt =====
-- Idempotency keys and assignments under both services.
use trackflow.Prelude.{
  ◌≡◌, ◌++◌, [], ◌∷◌, List, some, none, arith, refl, ℕ, inl, inr, if◌then◌else◌, false,
}
use mathlib.Core.Option
use trackflow.Text.{Text, text_eq}
use trackflow.Text.Laws.{text_eq_iff}
use trackflow.Database.{
  Postgres, OrderRow, AssignmentRow, HistoryRow, Database, Session, update_order,
}
use trackflow.Tracking.Repository.{TrackingRepository}
use trackflow.Tracking.Repository.Journal.{moved}
use trackflow.Order.Repository.{OrderRepository}
use trackflow.Order.Statements.{find_key, find_assignment}
use trackflow.System.{Call, perform, perform_all}
use trackflow.System.Effect.{Effect, same, added, moved_on, IsMoved, perform-Effect}

pub find_key-append :
    (key : Text) (rows : List OrderRow) (row : OrderRow)
    → find_key key (rows ++ row ∷ []) ≡ elim (find_key key rows) [
      | none ↦ if text_eq row.idempotency_key key then some row else none
      | some first ↦ some first
    ]
unfolding find_key
find_key-append key [] row = ground arith
find_key-append key (first ∷ rows) row = ground (arith, find_key-append key rows row)

-- The row under an UPDATE.
abbrev updated : Text → (OrderRow → OrderRow) → OrderRow → OrderRow
updated id change row = if text_eq row.id id then change row else row

find_key-update_order :
    (id key : Text) (change : OrderRow → OrderRow) (rows : List OrderRow)
    → ((row : OrderRow) → (change row).idempotency_key ≡ row.idempotency_key)
    → find_key key (update_order id change rows)
      ≡ Option.map (updated id change) (find_key key rows)
unfolding find_key update_order
find_key-update_order id key change [] keeps = refl
find_key-update_order id key change (row ∷ rows) keeps =
    ground (arith, keeps row, find_key-update_order id key change rows keeps)

-- No key stands in two rows, and no order in two assignments.
abbrev pub IsKeyed : List OrderRow → Type 0
IsKeyed [] = Unit
IsKeyed (row ∷ rows) = (find_key row.idempotency_key rows ≡ none) × IsKeyed rows

abbrev pub IsAssignedOnce : List AssignmentRow → Type 0
IsAssignedOnce [] = Unit
IsAssignedOnce (row ∷ rows) = (find_assignment row.order_id rows ≡ none) × IsAssignedOnce rows

IsKeyed-append :
    (rows : List OrderRow) (row : OrderRow)
    → find_key row.idempotency_key rows ≡ none
    → IsKeyed rows
    → IsKeyed (rows ++ row ∷ [])
unfolding find_key
IsKeyed-append [] row fresh keyed = (refl, tt)
IsKeyed-append (first ∷ rows) row fresh (alone, keyed) = (
  ground (
    arith,
    find_key-append first.idempotency_key rows row,
    text_eq_iff first.idempotency_key row.idempotency_key,
    text_eq_iff row.idempotency_key first.idempotency_key,
  ),
  IsKeyed-append rows row (ground arith) keyed,
)

IsKeyed-update_order :
    (id next : Text) (now : ℕ) (rows : List OrderRow)
    → IsKeyed rows
    → IsKeyed (update_order id (moved next now) rows)
unfolding update_order
IsKeyed-update_order id next now [] keyed = tt
IsKeyed-update_order id next now (row ∷ rows) (alone, keyed) = (
  ground (arith, find_key-update_order id row.idempotency_key (moved next now) rows (λ row. refl)),
  IsKeyed-update_order id next now rows keyed,
)

find_assignment-append :
    (id : Text) (rows : List AssignmentRow) (row : AssignmentRow)
    → find_assignment id rows ≡ none
    → text_eq row.order_id id ≡ false
    → find_assignment id (rows ++ row ∷ []) ≡ none
unfolding find_assignment
find_assignment-append id [] row h other = ground arith
find_assignment-append id (first ∷ rows) row h other =
    ground (arith, find_assignment-append id rows row)

IsAssignedOnce-append :
    (rows : List AssignmentRow) (row : AssignmentRow)
    → find_assignment row.order_id rows ≡ none
    → IsAssignedOnce rows
    → IsAssignedOnce (rows ++ row ∷ [])
unfolding find_assignment
IsAssignedOnce-append [] row fresh once = (refl, tt)
IsAssignedOnce-append (first ∷ rows) row fresh (alone, once) = (
  ground (
    arith,
    find_assignment-append first.order_id rows row,
    text_eq_iff first.order_id row.order_id,
    text_eq_iff row.order_id first.order_id,
  ),
  IsAssignedOnce-append rows row (ground arith) once,
)

pub record IsSound (d : Database) : Type 0 where
  pub keyed : IsKeyed d.orders
  pub assigned_once : IsAssignedOnce d.assignments

-- The first order of the key has the id.
abbrev pub Names : Text → Text → Database → Type 0
Names key id d = (row : OrderRow) × (find_key key d.orders ≡ some row) × (row.id ≡ id)

module _ (before : Database) where
  IsMoved-assigned :
      (row : OrderRow) (next : Text) (now : ℕ) (entry : HistoryRow) (after : Database)
      → IsMoved before row next now entry after
      → IsAssignedOnce before.assignments
      → IsAssignedOnce after.assignments
  IsMoved-assigned row next now entry after m once = elim m.assignments [
    | inl unchanged ↦ rw unchanged once
    | inr (given, of_order, fresh, grown) ↦
        rw grown (IsAssignedOnce-append before.assignments given fresh once)
  ]

  Effect-IsSound : {after : Database} → Effect before after → IsSound before → IsSound after
  Effect-IsSound (same after unchanged) sound = rw unchanged sound
  Effect-IsSound (added row after n) sound = record {
    keyed = rw (n.orders) (IsKeyed-append before.orders row n.fresh sound.keyed);
    assigned_once = rw (n.assignments) sound.assigned_once;
  }
  Effect-IsSound (moved_on row next now entry after m) sound = record {
    keyed = rw (m.orders) (IsKeyed-update_order entry.order_id next now before.orders sound.keyed);
    assigned_once = IsMoved-assigned row next now entry after m sound.assigned_once;
  }

  Effect-Names :
      (key id : Text) {after : Database}
      → Effect before after
      → Names key id before
      → Names key id after
  Effect-Names key id (same after unchanged) named = rw unchanged named
  Effect-Names key id (added row after n) (first, found, at) =
      (first, rw (n.orders) (ground (arith, find_key-append key before.orders row, found)), at)
  Effect-Names key id (moved_on row next now entry after m) (first, found, at) = (
    updated entry.order_id (moved next now) first,
    ground (
      arith,
      m.orders,
      found,
      find_key-update_order entry.order_id key (moved next now) before.orders (λ row. refl),
    ),
    ground (arith, at),
  )

module _ (pg : Postgres) (orders : OrderRepository) (tracking : TrackingRepository) where
  -- Under any calls of both services, failed ones included, no idempotency key comes to stand in
  -- two orders, and no order comes to have two assignments.
  pub perform_all-IsSound :
      (cs : List Call) (s : Session)
      → IsSound s.database
      → IsSound (perform_all pg orders tracking cs s).database
  unfolding perform_all
  perform_all-IsSound [] s sound = sound
  perform_all-IsSound (c ∷ cs) s sound =
      perform_all-IsSound cs (perform pg orders tracking c s)
        (Effect-IsSound s.database (perform-Effect pg orders tracking s c) sound)

  -- A key that names an order names it for good, whatever calls follow.
  pub perform_all-Names :
      (cs : List Call) (s : Session) (key id : Text)
      → Names key id s.database
      → Names key id (perform_all pg orders tracking cs s).database
  unfolding perform_all
  perform_all-Names [] s key id named = named
  perform_all-Names (c ∷ cs) s key id named =
      perform_all-Names cs (perform pg orders tracking c s) key id
        (Effect-Names s.database key id (perform-Effect pg orders tracking s c) named)
