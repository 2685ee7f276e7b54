-- ===== src/Order/Router.antt =====
-- New of services/order-service/internal/handler/handler.go: the routes of order-service. The JSON of
-- an answer is a parameter.
use trackflow.Prelude.{List, [], ◌∷◌, Option}
use trackflow.Text.{Text, text}
use trackflow.Http.Mux.{Route, literal, wildcard, route}
use trackflow.Order.Handler.{
  Request, Response, Payload, plain, handle_health, handle_orders, handle_create_order,
  handle_get_order_by_id, handle_assign_order,
}
use trackflow.Order.Service.{OrderService}
use trackflow.Server.{Page, json_page, plain_page, Endpoint, metrics, page}

unfoldable pub rendered : (Payload → Text) → Response → Page
rendered encode response = elim response.payload [
  | plain what ↦ plain_page response.status what
  | _ ↦ json_page response.status (encode response.payload)
]

module _ {S : Type 0} (encode : Payload → Text) (svc : Option (OrderService S)) where
  -- A handler, which reads the wildcard as the path value id.
  answering : (Request → S → Response × S) → Endpoint Request S
  unfolding rendered
  answering handler = page λ id r s.
      let (response, after) = handler (record r { path_id = id }) s in
      (rendered encode response, after)

  unfoldable pub routes : List (Route (Endpoint Request S))
  unfolding answering
  routes =
      route (text "/metrics") (literal (text "metrics") ∷ []) metrics
      ∷ route (text "/health") (literal (text "health") ∷ []) (answering (handle_health svc))
      ∷ route (text "/orders") (literal (text "orders") ∷ []) (answering (handle_create_order svc))
      ∷ route (text "/orders/{id}") (literal (text "orders") ∷ wildcard ∷ [])
          (answering (handle_get_order_by_id svc))
      ∷ route (text "/orders/{id}/assign")
          (literal (text "orders") ∷ wildcard ∷ literal (text "assign") ∷ [])
          (answering (handle_assign_order svc))
      ∷ route (text "/v1/orders") (literal (text "v1") ∷ literal (text "orders") ∷ [])
          (answering (handle_orders svc))
      ∷ route (text "/v1/orders/{id}")
          (literal (text "v1") ∷ literal (text "orders") ∷ wildcard ∷ [])
          (answering (handle_get_order_by_id svc))
      ∷ route (text "/v1/orders/{id}/assign")
          (literal (text "v1") ∷ literal (text "orders") ∷ wildcard ∷ literal (text "assign") ∷ [])
          (answering (handle_assign_order svc))
      ∷ []
