-- ===== src/Order/Repository/Creation.antt =====
-- What CreateOrder of order_repository.go does to the tables.
use mathlib.Core.List.{append_assoc}
use trackflow.Prelude.{
  ◌≡◌, ◌++◌, [], ◌∷◌, ok, err, some, none, arith, refl, ap, ◌∙◌, Bool-cases, inl, inr, Result, ◌⊎◌,
}
use trackflow.Text.{Text, text}
use trackflow.Database.{
  Postgres, OrderRow, AddressRow, Database, Session, behind, execute, fault, unacknowledged,
}
use trackflow.Prelude.Action.{pure}
use trackflow.Database.Statements.{call-ok}
use trackflow.Database.Transactions.{transaction-ok, transaction-err, IsUnacknowledged}
use trackflow.Order.Error.{Error, external}
use trackflow.Order.Model.{Order, CreateOrderInput}
use trackflow.Order.Statements.{address_row, find_key, insert_address_query, insert_order_query}
use trackflow.Order.Repository.{
  OrderRepository, scan_order, create_statements, create_order, passed_on, idempotency_failure,
  is_idempotency_conflict, is_conflict,
}
use trackflow.Order.Repository.Inserts.{
  IsAddress, IsNewOrder, insert_address_query-IsAddress, insert_order_query-IsNewOrder,
}

-- A creation that went through: two addresses and an order of status created that has them stand
-- last in their tables, the order is the first of its key, and no other table is changed.
pub record IsCreation (pg : Postgres) (input : CreateOrderInput) (key : Text) (before : Database)
    (order : Order) (after : Database) : Type 0 where
  pub pickup : AddressRow
  pub dropoff : AddressRow
  pub row : OrderRow
  pub pickup_given : pickup ≡ address_row pickup.id input.pickup_address pickup.lat pickup.lng
  pub dropoff_given : dropoff ≡ address_row dropoff.id input.dropoff_address dropoff.lat dropoff.lng
  pub from_pickup : pg.parse_uuid pickup.id ≡ some row.pickup_address_id
  pub to_dropoff : pg.parse_uuid dropoff.id ≡ some row.dropoff_address_id
  pub by_customer : pg.parse_uuid input.customer_id ≡ some row.customer_id
  pub level : row.service_level ≡ input.service_level
  pub status : row.status ≡ text "created"
  pub keyed : row.idempotency_key ≡ key
  pub fresh : find_key key before.orders ≡ none
  pub returned : order ≡ scan_order row
  pub changed : after ≡ record before {
    addresses = before.addresses ++ pickup ∷ dropoff ∷ [];
    orders = before.orders ++ row ∷ [];
  }

module _ (pg : Postgres) (input : CreateOrderInput) (key : Text) where
  -- The three inserts of a creation, one after the other.
  inserts-IsCreation :
      (start first second third : Session) (a b : Text) (row : OrderRow)
      → IsAddress pg input.pickup_address (behind start) a first
      → IsAddress pg input.dropoff_address (behind first) b second
      → IsNewOrder pg input a b key (behind second) row third
      → IsCreation pg input key start.database (scan_order row) third.database
  unfolding behind
  inserts-IsCreation start first second third a b row p d n = record {
    pickup = p.row;
    dropoff = d.row;
    row = row;
    pickup_given = cc (p.as_given);
    dropoff_given = cc (d.as_given);
    from_pickup = cc (p.as_given, n.pickup_address_id);
    to_dropoff = cc (d.as_given, n.dropoff_address_id);
    by_customer = n.customer_id;
    level = ap (λ r. r.service_level) n.as_given;
    status = ap (λ r. r.status) n.as_given;
    keyed = ap (λ r. r.idempotency_key) n.as_given;
    fresh = cc (p.added, d.added, n.fresh);
    returned = refl;
    changed = ground (
      arith,
      n.added,
      d.added,
      p.added,
      append_assoc start.database.addresses (p.row ∷ []) (d.row ∷ []),
    );
  }

  renamed :
      (start : Session) {order order' : Order} {left left' : Session}
      → IsCreation pg input key start.database order left.database
      → ◌≡◌ {A = Result Error Order} (ok order) (ok order')
      → left' ≡ left
      → IsCreation pg input key start.database order' left'.database
  renamed start {order} {order'} made same end =
      let same_order : order ≡ order' = cc in rw (← same_order, end) made

  create_statements-IsCreation :
      (s : Session) {order : Order}
      → (create_statements pg input key s).0 ≡ ok order
      → IsCreation pg input key s.database order (create_statements pg input key s).1.database
  unfolding create_statements
  create_statements-IsCreation s h =
      let (a, went_a, rest_a, end_a) =
        call-ok passed_on (insert_address_query pg input.pickup_address) _ s h in
      let (b, went_b, rest_b, end_b) =
        call-ok passed_on (insert_address_query pg input.dropoff_address) _ _ rest_a in
      let (row, went_c, rest_c, end_c) =
        call-ok idempotency_failure (insert_order_query pg input a b key) _ _ rest_b in
      renamed s
        (inserts-IsCreation s _ _ _ a b row
          (insert_address_query-IsAddress pg input.pickup_address (behind s) a went_a)
          (insert_address_query-IsAddress pg input.dropoff_address (behind _) b went_b)
          (insert_order_query-IsNewOrder pg input a b key (behind _) row went_c))
        rest_c (end_a ∙ (end_b ∙ end_c))

  -- A creation whose error is that of a commit without its acknowledgement.
  pub record IsUnseen (s : Session) (e : Error) (after : Database) : Type 0 where
    pub what : Text
    pub order : Order
    pub reported : e ≡ external what
    pub creation : IsCreation pg input key s.database order after
    pub commit_lost :
        (execute (pure tt) (create_statements pg input key (behind s)).1).0
        ≡ err (fault (unacknowledged what))

  -- What a creation in the session `s` leaves, by its result.
  abbrev pub Created : Session → Result Error Order × Session → Type 0
  Created s (ok order, after) = IsCreation pg input key s.database order after.database
  Created s (err e, after) = (after.database ≡ s.database) ⊎ IsUnseen s e after.database

  outcome-Created :
      (s : Session) (out : Result Error Order × Session)
      → ((order : Order)
          → out.0 ≡ ok order
          → IsCreation pg input key s.database order out.1.database)
      → ((e : Error) → out.0 ≡ err e → (out.1.database ≡ s.database) ⊎ IsUnseen s e out.1.database)
      → Created s out
  outcome-Created s (ok order, after) made kept = made order refl
  outcome-Created s (err e, after) made kept = kept e refl

  unseen :
      (s : Session) (e : Error) (after : Database)
      → IsUnacknowledged idempotency_failure (create_statements pg input key) (behind s) e after
      → IsUnseen s e after
  unfolding idempotency_failure is_idempotency_conflict is_conflict behind
  unseen s e after u = record {
    what = u.what;
    order = u.result;
    reported = u.reported;
    creation = rw (u.tables) (create_statements-IsCreation (behind s) u.went);
    commit_lost = u.commit_lost;
  }

  module _ (r : OrderRepository) (s : Session) where
    pub create_order-IsCreation :
        {order : Order}
        → (create_order pg r input key s).0 ≡ ok order
        → IsCreation pg input key s.database order (create_order pg r input key s).1.database
    unfolding create_order behind
    create_order-IsCreation h = elim (Bool-cases r.has_db) [
      | inl up ↦
          let (went, tables) =
            transaction-ok passed_on idempotency_failure (create_statements pg input key) s
              (rw up at h) in
          rw up (rw tables (create_statements-IsCreation (behind s) went))
      | inr down ↦ cc
    ]

    pub create_order-err :
        {e : Error}
        → (create_order pg r input key s).0 ≡ err e
        → ((create_order pg r input key s).1.database ≡ s.database)
          ⊎ IsUnseen s e (create_order pg r input key s).1.database
    unfolding create_order
    create_order-err {e} h = elim (Bool-cases r.has_db) [
      | inl up ↦
          rw up
            (elim (transaction-err passed_on idempotency_failure (create_statements pg input key) s
              (rw up at h)) [ inl same ↦ inl same | inr u ↦ inr (unseen s e _ u) ])
      | inr down ↦ rw down (inl refl)
    ]

    -- A creation that returns an order has added it, of status created and first of its key, with
    -- its two addresses, and nothing else. One that returns an error, at whatever call it failed,
    -- has changed no table; or the server had committed and only the acknowledgement was lost, and
    -- then the creation stands in the tables, whole, behind the error that passes the loss on.
    pub create_order-Created : Created s (create_order pg r input key s)
    create_order-Created =
        outcome-Created s (create_order pg r input key s) (λ order h. create_order-IsCreation h)
          λ e h. create_order-err h
