-- ===== src/Tracking/Repository/Journal.antt =====
-- What a status update of tracking_repository.go does to the tables.
use trackflow.Prelude.{
  ok, err, ◌≡◌, [], ◌∷◌, ◌++◌, some, none, arith, inl, inr, Option-cases, ap, ◌≢◌, Bool-cases, ℕ,
  ◌⊎◌, refl, true,
}
use trackflow.Text.{Text, contains}
use trackflow.Database.{
  cast_enum, order_statuses, Postgres, OrderRow, HistoryRow, Database, Session, execute, find_order,
  update_order, null_if_empty, cast_uuid, draw_id, behind, fault, unacknowledged, check,
}
use trackflow.Prelude.Action.{pure}
use trackflow.Tracking.Model.{StatusHistoryItem}
use trackflow.Tracking.Status.{validate_status_transition}
use trackflow.Tracking.Repository.{
  change_status, scan_status_history_item, TrackingRepository, update_order_status,
  select_order_status_query, update_order_status_query, insert_status_history_query, cast_json,
  passed_on,
}
use trackflow.Tracking.Error.{Error, external}
use trackflow.Database.Transactions.{transaction-ok, transaction-err, IsUnacknowledged}

abbrev pub moved : Text → ℕ → OrderRow → OrderRow
moved status now row = record row { status = status; last_status_at = now; updated_at = now }

-- The row that a status update adds.
abbrev pub entry_of : Postgres → ℕ → ℕ → Text → Text → Text → Text → Text → HistoryRow
entry_of pg now drawn id next source comment metadata = record {
  id = pg.new_id drawn;
  order_id = id;
  status = next;
  source = source;
  comment = null_if_empty comment;
  metadata = elim metadata [ [] ↦ none | c ∷ m ↦ pg.parse_json (c ∷ m) ];
  created_at = now;
}

-- A status update that went through: the order was there, the step was legal, its row has the new
-- status, and one row stands at the end of the history.
pub record IsMove (pg : Postgres) (order_id next source comment metadata : Text) (before : Database)
    (now drawn : ℕ) (item : StatusHistoryItem) (after : Database) : Type 0 where
  pub id : Text
  pub row : OrderRow
  pub parsed : pg.parse_uuid order_id ≡ some id
  pub found : find_order id before.orders ≡ some row
  pub legal : validate_status_transition row.status next ≡ ok tt
  pub labelled : contains order_statuses next ≡ true
  pub scanned :
      item ≡ scan_status_history_item (entry_of pg now drawn id next source comment metadata)
  pub orders : after.orders ≡ update_order id (moved next now) before.orders
  pub history :
      after.history ≡ before.history ++ entry_of pg now drawn id next source comment metadata ∷ []
  pub others :
      (after.addresses ≡ before.addresses)
      × (after.couriers ≡ before.couriers)
      × (after.assignments ≡ before.assignments)

module _ (pg : Postgres) (order_id next source comment metadata : Text) where
  module _ (s : Session) {item : StatusHistoryItem}
      (h : (change_status pg order_id next source comment metadata s).0 ≡ ok item) where
    change_status-parses : pg.parse_uuid order_id ≢ none
    unfolding change_status select_order_status_query execute cast_uuid
    change_status-parses bad = ground arith

    change_status-finds :
        (id : Text) → pg.parse_uuid order_id ≡ some id → find_order id s.database.orders ≢ none
    unfolding change_status select_order_status_query execute cast_uuid
    change_status-finds id parsed missing = ground arith

    module _ (id : Text) (row : OrderRow) (parsed : pg.parse_uuid order_id ≡ some id)
        (found : find_order id s.database.orders ≡ some row) where
      change_status-move :
          (validate_status_transition row.status next ≡ ok tt)
          × (contains order_statuses next ≡ true)
          × (item
              ≡ scan_status_history_item
                  (entry_of pg s.now s.drawn id next source comment metadata))
          × ((change_status pg order_id next source comment metadata s).1.database
              ≡ record (s.database) {
                orders = update_order id (moved next s.now) s.database.orders;
                history =
                    s.database.history
                    ++ entry_of pg s.now s.drawn id next source comment metadata ∷ [];
              })
      unfolding change_status select_order_status_query update_order_status_query
          insert_status_history_query execute cast_uuid cast_enum cast_json draw_id check
      change_status-move = (ground arith, ground arith, ground arith, ground arith)

      found-IsMove :
          IsMove pg order_id next source comment metadata s.database s.now s.drawn item
            (change_status pg order_id next source comment metadata s).1.database
      found-IsMove =
          let (legal, labelled, scanned, changed) = change_status-move in
          record {
            id = id;
            row = row;
            parsed = parsed;
            found = found;
            legal = legal;
            labelled = labelled;
            scanned = scanned;
            orders = ap (λ d. d.orders) changed;
            history = ap (λ d. d.history) changed;
            others = (
              ap (λ d. d.addresses) changed,
              ap (λ d. d.couriers) changed,
              ap (λ d. d.assignments) changed,
            );
          }

    change_status-IsMove :
        IsMove pg order_id next source comment metadata s.database s.now s.drawn item
          (change_status pg order_id next source comment metadata s).1.database
    change_status-IsMove = elim (Option-cases (pg.parse_uuid order_id)) [
      | inl bad ↦ absurd (change_status-parses bad)
      | inr (id, parsed) ↦ elim (Option-cases (find_order id s.database.orders)) [
        | inl missing ↦ absurd (change_status-finds id parsed missing)
        | inr (row, found) ↦ found-IsMove id row parsed found
      ]
    ]

  -- A status update whose error is that of a commit without its acknowledgement.
  pub record IsUnseen (s : Session) (e : Error) (after : Database) : Type 0 where
    pub what : Text
    pub item : StatusHistoryItem
    pub reported : e ≡ external what
    pub move : IsMove pg order_id next source comment metadata s.database s.now s.drawn item after
    pub commit_lost :
        (execute (pure tt) (change_status pg order_id next source comment metadata (behind s)).1).0
        ≡ err (fault (unacknowledged what))

  unseen :
      (s : Session) (e : Error) (after : Database)
      → IsUnacknowledged passed_on
          (change_status pg order_id next source comment metadata)
          (behind s)
          e
          after
      → IsUnseen s e after
  unfolding behind
  unseen s e after u = record {
    what = u.what;
    item = u.result;
    reported = u.reported;
    move = rw (u.tables) (change_status-IsMove (behind s) u.went);
    commit_lost = u.commit_lost;
  }

  module _ (r : TrackingRepository) (s : Session) where
    -- A status update that returns an item has made exactly one legal move: the order exists, its
    -- stored status may be followed by the new one, only its row is changed, and only one history
    -- row is added, which the item shows.
    pub update_order_status-IsMove :
        {item : StatusHistoryItem}
        → (update_order_status pg r order_id next source comment metadata s).0 ≡ ok item
        → IsMove pg order_id next source comment metadata s.database s.now s.drawn item
            (update_order_status pg r order_id next source comment metadata s).1.database
    unfolding update_order_status behind
    update_order_status-IsMove {item} h = elim (Bool-cases r.has_db) [
      | inl up ↦
          let (went, tables) =
            transaction-ok passed_on passed_on
              (change_status pg order_id next source comment metadata) s (rw up at h) in
          rw up (rw tables (change_status-IsMove (behind s) went))
      | inr down ↦ cc
    ]

    -- A status update that returns an error, at whatever call it fails, has changed no table, or
    -- has gone through without the acknowledgement of its commit.
    pub update_order_status-err :
        {e : Error}
        → (update_order_status pg r order_id next source comment metadata s).0 ≡ err e
        → ((update_order_status pg r order_id next source comment metadata s).1.database
            ≡ s.database)
          ⊎ IsUnseen s e
              (update_order_status pg r order_id next source comment metadata s).1.database
    unfolding update_order_status
    update_order_status-err {e} h = elim (Bool-cases r.has_db) [
      | inl up ↦
          rw up
            (elim (transaction-err passed_on passed_on
              (change_status pg order_id next source comment metadata) s (rw up at h)) [
                | inl same ↦ inl same
                | inr u ↦ inr (unseen s e _ u)
              ])
      | inr down ↦ rw down (inl refl)
    ]
