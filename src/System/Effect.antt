-- ===== src/System/Effect.antt =====
-- What a call of either service may do to the tables: nothing, add an order, or move one.
use trackflow.Prelude.{
  ◌≡◌, ◌++◌, [], ◌∷◌, ok, err, Result, some, none, refl, ap, ℕ, ◌⊎◌, inl, inr, suc,
}
use trackflow.Text.{Text, text}
use trackflow.Database.{
  Postgres, OrderRow, HistoryRow, AssignmentRow, Database, Session, find_order, update_order,
}
use trackflow.Tracking.Error as TrackingError
use trackflow.Tracking.Model.{StatusHistoryItem}
use trackflow.Tracking.Repository.{TrackingRepository, update_order_status}
use trackflow.Tracking.Repository.Journal.{
  IsMove, moved, entry_of, update_order_status-IsMove, update_order_status-err,
}
use trackflow.Tracking.Status.{validate_status_transition}
use trackflow.Tracking.Status.Lifecycle.{Status, name, ◌⟶◌, label-name, step_of_ok}
use trackflow.Order.Error as OrderError
use trackflow.Order.Model.{Order, CreateOrderInput, AssignOrderInput}
use trackflow.Order.Statements.{find_key, find_assignment, assignment_row, assigned_entry}
use trackflow.Order.Repository.{OrderRepository, create_order, assign_order}
use trackflow.Order.Repository.Creation.{IsCreation, create_order-IsCreation, create_order-err}
use trackflow.Order.Repository.Assignment.{
  IsAssignment, assign_order-IsAssignment, assign_order-err,
}
use trackflow.System.{Call, create, assign, update, wait, perform}

-- From every status of the life cycle that the text names, the other is a step away.
abbrev pub Leads : Text → Text → Type 0
Leads current next = (a : Status) → current ≡ name a → (b : Status) × (next ≡ name b) × (a ⟶ b)

pub record IsAdded (before : Database) (row : OrderRow) (after : Database) : Type 0 where
  pub fresh : find_key row.idempotency_key before.orders ≡ none
  pub status : row.status ≡ name Status.created
  pub orders : after.orders ≡ before.orders ++ row ∷ []
  pub history : after.history ≡ before.history
  pub assignments : after.assignments ≡ before.assignments

pub record IsMoved (before : Database) (row : OrderRow) (next : Text) (now : ℕ) (entry : HistoryRow)
    (after : Database) : Type 0 where
  pub found : find_order entry.order_id before.orders ≡ some row
  pub leads : Leads row.status next
  pub entry_status : entry.status ≡ next
  pub orders : after.orders ≡ update_order entry.order_id (moved next now) before.orders
  pub history : after.history ≡ before.history ++ entry ∷ []
  pub assignments :
      (after.assignments ≡ before.assignments)
      ⊎ ((given : AssignmentRow) × (given.order_id ≡ entry.order_id)
          × (find_assignment given.order_id before.assignments ≡ none)
          × (after.assignments ≡ before.assignments ++ given ∷ []))

pub data Effect (before : Database) : Database → Type 0 where
  same : (after : Database) → after ≡ before → Effect before after
  added : (row : OrderRow) (after : Database) → IsAdded before row after → Effect before after
  moved_on :
      (row : OrderRow) (next : Text) (now : ℕ) (entry : HistoryRow) (after : Database)
      → IsMoved before row next now entry after
      → Effect before after

module _ (pg : Postgres) where
  IsCreation-Effect :
      (input : CreateOrderInput) (key : Text) (before after : Database) (order : Order)
      → IsCreation pg input key before order after
      → Effect before after
  IsCreation-Effect input key before after order c = added c.row after record {
    fresh = rw (c.keyed) c.fresh;
    status = c.status;
    orders = ap (λ d. d.orders) c.changed;
    history = ap (λ d. d.history) c.changed;
    assignments = ap (λ d. d.assignments) c.changed;
  }

  created-Leads : Leads (text "created") (text "assigned")
  created-Leads Status.created h = (Status.assigned, refl, ◌⟶◌.assign)
  created-Leads Status.assigned h = cc
  created-Leads Status.in_transit h = cc
  created-Leads Status.delivered h = cc
  created-Leads Status.cancelled h = cc

  IsAssignment-Effect :
      (order_id : Text) (input : AssignOrderInput) (before after : Database) (now drawn : ℕ)
      (order : Order)
      → IsAssignment pg order_id input before now drawn order after
      → Effect before after
  IsAssignment-Effect order_id input before after now drawn order a =
      moved_on a.row (text "assigned") now
        (assigned_entry (pg.new_id (suc drawn)) a.id a.courier_id input.comment now) after
        record {
          found = a.found;
          leads = rw (a.was_created) created-Leads;
          entry_status = refl;
          orders = ap (λ d. d.orders) a.changed;
          history = ap (λ d. d.history) a.changed;
          assignments = inr (
            assignment_row (pg.new_id drawn) a.id a.courier_id now input.assigned_by input.comment,
            refl,
            a.unassigned,
            ap (λ d. d.assignments) a.changed,
          );
        }

  IsMove-Leads :
      (row : OrderRow) (next : Text) (b : Status)
      → next ≡ name b
      → validate_status_transition row.status next ≡ ok tt
      → Leads row.status next
  IsMove-Leads row next b named legal a at = (b, named, step_of_ok a b (cc))

  IsMove-Effect :
      (order_id next source comment metadata : Text) (before after : Database) (now drawn : ℕ)
      (item : StatusHistoryItem)
      → IsMove pg order_id next source comment metadata before now drawn item after
      → Effect before after
  IsMove-Effect order_id next source comment metadata before after now drawn item m =
      let (b, named) = label-name next m.labelled in
      moved_on m.row next now (entry_of pg now drawn m.id next source comment metadata) after
        record {
          found = m.found;
          leads = IsMove-Leads m.row next b named m.legal;
          entry_status = refl;
          orders = m.orders;
          history = m.history;
          assignments = inl m.others.2;
        }

module _ (pg : Postgres) (orders : OrderRepository) (tracking : TrackingRepository)
    (s : Session) where
  of_creation :
      (input : CreateOrderInput) (key : Text) (o : Result OrderError.Error Order)
      → (create_order pg orders input key s).0 ≡ o
      → Effect s.database (create_order pg orders input key s).1.database
  of_creation input key (ok order) h =
      IsCreation-Effect pg input key s.database _ order
        (create_order-IsCreation pg input key orders s h)
  of_creation input key (err e) h = elim (create_order-err pg input key orders s h) [
    | inl kept ↦ same _ kept
    | inr unseen ↦ IsCreation-Effect pg input key s.database _ unseen.order unseen.creation
  ]

  of_assignment :
      (order_id : Text) (input : AssignOrderInput) (o : Result OrderError.Error Order)
      → (assign_order pg orders order_id input s).0 ≡ o
      → Effect s.database (assign_order pg orders order_id input s).1.database
  of_assignment order_id input (ok order) h =
      IsAssignment-Effect pg order_id input s.database _ s.now s.drawn order
        (assign_order-IsAssignment pg order_id input orders s h)
  of_assignment order_id input (err e) h = elim (assign_order-err pg order_id input orders s h) [
    | inl kept ↦ same _ kept
    | inr unseen ↦
        IsAssignment-Effect pg order_id input s.database _ s.now s.drawn unseen.order
          unseen.assignment
  ]

  of_update :
      (order_id next source comment metadata : Text)
      (o : Result TrackingError.Error StatusHistoryItem)
      → (update_order_status pg tracking order_id next source comment metadata s).0 ≡ o
      → Effect s.database
          (update_order_status pg tracking order_id next source comment metadata s).1.database
  of_update order_id next source comment metadata (ok item) h =
      IsMove-Effect pg order_id next source comment metadata s.database _ s.now s.drawn item
        (update_order_status-IsMove pg order_id next source comment metadata tracking s h)
  of_update order_id next source comment metadata (err e) h =
      elim (update_order_status-err pg order_id next source comment metadata tracking s h) [
        | inl kept ↦ same _ kept
        | inr unseen ↦
            IsMove-Effect pg order_id next source comment metadata s.database _ s.now s.drawn
              unseen.item unseen.move
      ]

  -- Whatever a call answers, it leaves the tables as they were, adds one order of status created,
  -- the first of its key, or moves one order a legal step with one history row that says so and at
  -- most one assignment, its order's first.
  pub perform-Effect : (c : Call) → Effect s.database (perform pg orders tracking c s).database
  unfolding perform
  perform-Effect (create input key) = of_creation input key _ refl
  perform-Effect (assign order_id input) = of_assignment order_id input _ refl
  perform-Effect (update order_id next source comment metadata) =
      of_update order_id next source comment metadata _ refl
  perform-Effect (wait now faults) = same _ refl
