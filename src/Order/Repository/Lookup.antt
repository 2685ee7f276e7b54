-- ===== src/Order/Repository/Lookup.antt =====
-- GetOrderByIdempotencyKey of order_repository.go.
use trackflow.Prelude.{◌≡◌, ok, err, some, false, arith, Option-cases, inl, inr}
use trackflow.Text.{Text}
use trackflow.Database.{Postgres, OrderRow, Session, execute, behind}
use trackflow.Order.Error.{Error, is_order_not_found}
use trackflow.Order.Model.{Order}
use trackflow.Order.Statements.{find_key, get_order_by_idempotency_key_query}
use trackflow.Order.Repository.{OrderRepository, get_order_by_idempotency_key, scan_order, scanned}

module _ (pg : Postgres) (r : OrderRepository) (key : Text) (s : Session) where
  -- A lookup changes no table.
  pub get_order_by_idempotency_key_same :
      (get_order_by_idempotency_key pg r key s).1.database ≡ s.database
  unfolding get_order_by_idempotency_key scanned execute behind get_order_by_idempotency_key_query
  get_order_by_idempotency_key_same = ground arith

  pub get_order_by_idempotency_key-ok :
      (o : Order)
      → (get_order_by_idempotency_key pg r key s).0 ≡ ok o
      → (row : OrderRow) × (find_key key s.database.orders ≡ some row) × (row.id ≡ o.id)
  unfolding get_order_by_idempotency_key scanned execute behind get_order_by_idempotency_key_query
      scan_order
  get_order_by_idempotency_key-ok o h = elim (Option-cases (find_key key s.database.orders)) [
    | inl missing ↦ absurd (ground arith)
    | inr (row, found) ↦ (row, found, ground arith)
  ]

  pub get_order_by_idempotency_key-err :
      (e : Error) (row : OrderRow)
      → find_key key s.database.orders ≡ some row
      → (get_order_by_idempotency_key pg r key s).0 ≡ err e
      → is_order_not_found e ≡ false
  unfolding get_order_by_idempotency_key scanned execute behind get_order_by_idempotency_key_query
  get_order_by_idempotency_key-err e row found h = ground arith
