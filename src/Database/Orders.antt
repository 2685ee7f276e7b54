-- ===== src/Database/Orders.antt =====
-- Reading the orders table behind an UPDATE.
use trackflow.Prelude.{◌≡◌, [], ◌∷◌, List, arith, if◌then◌else◌, some, ◌++◌}
use mathlib.Core.Option
use trackflow.Text.{Text, text_eq}
use trackflow.Text.Laws.{text_eq_iff}
use trackflow.Database.{OrderRow, find_order, update_order}

module _ (id k : Text) (change : OrderRow → OrderRow) where
  pub find_order-update_order :
      (rows : List OrderRow)
      → ((row : OrderRow) → (change row).id ≡ row.id)
      → find_order k (update_order id change rows)
        ≡ (if text_eq k id then Option.map change (find_order k rows) else find_order k rows)
  unfolding find_order update_order
  find_order-update_order [] keeps = ground arith
  find_order-update_order (row ∷ rows) keeps = ground (
    arith,
    keeps row,
    text_eq_iff row.id id,
    text_eq_iff row.id k,
    text_eq_iff k id,
    find_order-update_order rows keeps,
  )

-- Reading behind an INSERT: a row that was found is still the first of its id.
pub find_order-append :
    (k : Text) (rows more : List OrderRow) (row : OrderRow)
    → find_order k rows ≡ some row
    → find_order k (rows ++ more) ≡ some row
unfolding find_order
find_order-append k [] more row h = cc
find_order-append k (first ∷ rows) more row h = ground (arith, find_order-append k rows more row)
