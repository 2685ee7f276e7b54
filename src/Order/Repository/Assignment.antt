-- ===== src/Order/Repository/Assignment.antt =====
-- What AssignOrder of order_repository.go does to the tables.
use trackflow.Prelude.{
  ◌≡◌, ◌≢◌, ◌++◌, [], ◌∷◌, ok, err, some, none, true, arith, refl, Bool-cases, Option-cases, inl,
  inr, ℕ, suc, Result, ◌⊎◌,
}
use trackflow.Text.{Text, text, text_eq}
use trackflow.Text.Laws.{text_eq_iff, text_eq_refl}
use trackflow.Database.{
  Postgres, OrderRow, CourierRow, Database, Session, execute, behind, cast_uuid, draw_id,
  find_order, update_order, fault, unacknowledged,
}
use trackflow.Prelude.Action.{pure}
use trackflow.Database.Orders.{find_order-update_order}
use trackflow.Database.Transactions.{transaction-ok, transaction-err, IsUnacknowledged}
use trackflow.Order.Error.{Error, external}
use trackflow.Order.Model.{Order, AssignOrderInput}
use trackflow.Order.Statements.{
  find_courier, find_assignment, unique, is_courier_active_query, select_order_status_query,
  insert_assignment_query, update_order_status_to_assigned_query,
  insert_assigned_status_history_query, assigned_row, assigned_entry, assignment_row,
}
use trackflow.Database.{check}
use trackflow.Order.Repository.{
  OrderRepository, scan_order, assign_statements, assign_order, assignable, passed_on,
  assignment_failure, is_assignment_conflict, is_conflict,
}

-- An assignment that went through: the order stood at created and had no courier, the courier is
-- active, the order's row is now assigned, and one assignment and one history row stand last in
-- their tables.
pub record IsAssignment (pg : Postgres) (order_id : Text) (input : AssignOrderInput)
    (before : Database) (now drawn : ℕ) (order : Order) (after : Database) : Type 0 where
  pub id : Text
  pub row : OrderRow
  pub courier_id : Text
  pub courier : CourierRow
  pub parsed : pg.parse_uuid order_id ≡ some id
  pub found : find_order id before.orders ≡ some row
  pub was_created : row.status ≡ text "created"
  pub courier_parsed : pg.parse_uuid input.courier_id ≡ some courier_id
  pub courier_found : find_courier courier_id before.couriers ≡ some courier
  pub active : courier.is_active ≡ true
  pub unassigned : find_assignment id before.assignments ≡ none
  pub returned : order ≡ scan_order (assigned_row now row)
  pub changed : after ≡ record before {
    orders = update_order id (assigned_row now) before.orders;
    assignments =
        before.assignments
        ++ assignment_row (pg.new_id drawn) id courier_id now input.assigned_by input.comment ∷ [];
    history =
        before.history
        ++ assigned_entry (pg.new_id (suc drawn)) id courier_id input.comment now ∷ [];
  }

module _ (pg : Postgres) (order_id : Text) (input : AssignOrderInput) where
  module _ (s : Session) {order : Order}
      (h : (assign_statements pg order_id input s).0 ≡ ok order) where
    order_parses : pg.parse_uuid order_id ≢ none
    unfolding assign_statements select_order_status_query execute cast_uuid
    order_parses bad = ground arith

    module _ (id : Text) (parsed : pg.parse_uuid order_id ≡ some id) where
      order_found : find_order id s.database.orders ≢ none
      unfolding assign_statements select_order_status_query execute cast_uuid
      order_found missing = ground arith

      module _ (row : OrderRow) (found : find_order id s.database.orders ≡ some row) where
        courier_parses : pg.parse_uuid input.courier_id ≢ none
        unfolding assign_statements select_order_status_query is_courier_active_query execute
            cast_uuid
        courier_parses bad = ground arith

        module _ (courier_id : Text)
            (known : pg.parse_uuid input.courier_id ≡ some courier_id) where
          courier_there : find_courier courier_id s.database.couriers ≢ none
          unfolding assign_statements select_order_status_query is_courier_active_query execute
              cast_uuid
          courier_there missing = ground arith

          module _ (courier : CourierRow)
              (there : find_courier courier_id s.database.couriers ≡ some courier) where
            assigned_facts :
                (text_eq row.status (text "created") ≡ true)
                × (courier.is_active ≡ true)
                × (find_assignment id s.database.assignments ≡ none)
            unfolding assign_statements select_order_status_query is_courier_active_query execute
                cast_uuid insert_assignment_query check unique assignable
            assigned_facts = (ground arith, ground arith, ground arith)

            assigned_effect :
                (order ≡ scan_order (assigned_row s.now row))
                × ((assign_statements pg order_id input s).1.database ≡ record (s.database) {
                  orders = update_order id (assigned_row s.now) s.database.orders;
                  assignments =
                      s.database.assignments
                      ++ assignment_row
                          (pg.new_id s.drawn)
                          id
                          courier_id
                          s.now
                          input.assigned_by
                          input.comment
                        ∷ [];
                  history =
                      s.database.history
                      ++ assigned_entry (pg.new_id (suc s.drawn)) id courier_id input.comment s.now
                        ∷ [];
                })
            unfolding assign_statements select_order_status_query is_courier_active_query execute
                cast_uuid insert_assignment_query check unique assignable draw_id
                update_order_status_to_assigned_query insert_assigned_status_history_query
            assigned_effect =
                let read =
                  find_order-update_order id id (assigned_row s.now) s.database.orders
                    (λ row. refl) in
                (ground (arith, read, text_eq_refl id), ground (arith, read, text_eq_refl id))

            found-IsAssignment :
                IsAssignment pg order_id input s.database s.now s.drawn order
                  (assign_statements pg order_id input s).1.database
            found-IsAssignment =
                let (created, active, alone) = assigned_facts in
                let (returned, changed) = assigned_effect in
                record {
                  id = id;
                  row = row;
                  courier_id = courier_id;
                  courier = courier;
                  parsed = parsed;
                  found = found;
                  was_created = (text_eq_iff row.status (text "created")).0 created;
                  courier_parsed = known;
                  courier_found = there;
                  active = active;
                  unassigned = alone;
                  returned = returned;
                  changed = changed;
                }

    assign_statements-IsAssignment :
        IsAssignment pg order_id input s.database s.now s.drawn order
          (assign_statements pg order_id input s).1.database
    assign_statements-IsAssignment = elim (Option-cases (pg.parse_uuid order_id)) [
      | inl bad ↦ absurd (order_parses bad)
      | inr (id, parsed) ↦ elim (Option-cases (find_order id s.database.orders)) [
        | inl missing ↦ absurd (order_found id parsed missing)
        | inr (row, found) ↦ elim (Option-cases (pg.parse_uuid input.courier_id)) [
          | inl bad ↦ absurd (courier_parses id parsed row found bad)
          | inr (courier_id, known) ↦
              elim (Option-cases (find_courier courier_id s.database.couriers)) [
                | inl missing ↦ absurd (courier_there id parsed row found courier_id known missing)
                | inr (courier, there) ↦
                    found-IsAssignment id parsed row found courier_id known courier there
              ]
        ]
      ]
    ]

  -- An assignment whose error is that of a commit without its acknowledgement.
  pub record IsUnseen (s : Session) (e : Error) (after : Database) : Type 0 where
    pub what : Text
    pub order : Order
    pub reported : e ≡ external what
    pub assignment : IsAssignment pg order_id input s.database s.now s.drawn order after
    pub commit_lost :
        (execute (pure tt) (assign_statements pg order_id input (behind s)).1).0
        ≡ err (fault (unacknowledged what))

  -- What an assignment in the session `s` leaves, by its result.
  abbrev pub Assigned : Session → Result Error Order × Session → Type 0
  Assigned s (ok order, after) =
      IsAssignment pg order_id input s.database s.now s.drawn order after.database
  Assigned s (err e, after) = (after.database ≡ s.database) ⊎ IsUnseen s e after.database

  outcome-Assigned :
      (s : Session) (out : Result Error Order × Session)
      → ((order : Order)
          → out.0 ≡ ok order
          → IsAssignment pg order_id input s.database s.now s.drawn order out.1.database)
      → ((e : Error) → out.0 ≡ err e → (out.1.database ≡ s.database) ⊎ IsUnseen s e out.1.database)
      → Assigned s out
  outcome-Assigned s (ok order, after) made kept = made order refl
  outcome-Assigned s (err e, after) made kept = kept e refl

  unseen :
      (s : Session) (e : Error) (after : Database)
      → IsUnacknowledged assignment_failure (assign_statements pg order_id input) (behind s) e after
      → IsUnseen s e after
  unfolding assignment_failure is_assignment_conflict is_conflict behind
  unseen s e after u = record {
    what = u.what;
    order = u.result;
    reported = u.reported;
    assignment = rw (u.tables) (assign_statements-IsAssignment (behind s) u.went);
    commit_lost = u.commit_lost;
  }

  module _ (r : OrderRepository) (s : Session) where
    pub assign_order-IsAssignment :
        {order : Order}
        → (assign_order pg r order_id input s).0 ≡ ok order
        → IsAssignment pg order_id input s.database s.now s.drawn order
            (assign_order pg r order_id input s).1.database
    unfolding assign_order behind
    assign_order-IsAssignment h = elim (Bool-cases r.has_db) [
      | inl up ↦
          let (went, tables) =
            transaction-ok passed_on assignment_failure (assign_statements pg order_id input) s
              (rw up at h) in
          rw up (rw tables (assign_statements-IsAssignment (behind s) went))
      | inr down ↦ cc
    ]

    pub assign_order-err :
        {e : Error}
        → (assign_order pg r order_id input s).0 ≡ err e
        → ((assign_order pg r order_id input s).1.database ≡ s.database)
          ⊎ IsUnseen s e (assign_order pg r order_id input s).1.database
    unfolding assign_order
    assign_order-err {e} h = elim (Bool-cases r.has_db) [
      | inl up ↦
          rw up
            (elim (transaction-err passed_on assignment_failure
              (assign_statements pg order_id input) s (rw up at h)) [
                | inl same ↦ inl same
                | inr u ↦ inr (unseen s e _ u)
              ])
      | inr down ↦ rw down (inl refl)
    ]

    -- An assignment that returns an order found it at created and without a courier, and the
    -- courier active; it has moved that order alone, and added one assignment and one history row.
    -- One that returns an error, at whatever call it failed, has changed no table; or the server had
    -- committed and only the acknowledgement was lost, and then the assignment stands in the tables,
    -- whole, behind the error that passes the loss on.
    pub assign_order-Assigned : Assigned s (assign_order pg r order_id input s)
    assign_order-Assigned =
        outcome-Assigned s (assign_order pg r order_id input s)
          (λ order h. assign_order-IsAssignment h) λ e h. assign_order-err h
