-- ===== src/System.antt =====
-- The two services that write the orders, order-service and tracking-service, on one database: the
-- calls of their repositories that change a table, in any order. Before a call the clock may move
-- and the faults ahead may change.
pub mod Effect
pub mod Keys
pub mod Journal
pub mod Lifetime
pub mod Requests
pub mod Passage
use trackflow.Prelude.{ℕ, List, [], ◌∷◌, Option}
use trackflow.Text.{Text}
use trackflow.Database.{Postgres, Session, Fault}
use trackflow.Tracking.Repository.{TrackingRepository, update_order_status}
use trackflow.Order.Model.{CreateOrderInput, AssignOrderInput}
use trackflow.Order.Repository.{OrderRepository, create_order, assign_order}

pub data Call : Type 0 where
  create : CreateOrderInput → (key : Text) → Call
  assign : (order_id : Text) → AssignOrderInput → Call
  update : (order_id next source comment metadata : Text) → Call
  wait : (now : ℕ) → (faults : List (Option Fault)) → Call

module _ (pg : Postgres) (orders : OrderRepository) (tracking : TrackingRepository) where
  unfoldable pub perform : Call → Session → Session
  perform (create input key) s = (create_order pg orders input key s).1
  perform (assign order_id input) s = (assign_order pg orders order_id input s).1
  perform (update order_id next source comment metadata) s =
      (update_order_status pg tracking order_id next source comment metadata s).1
  perform (wait now faults) s = record s { now = now; faults = faults }

  unfoldable pub perform_all : List Call → Session → Session
  perform_all [] s = s
  perform_all (c ∷ cs) s = perform_all cs (perform c s)
