-- ===== src/Tracking/Router.antt =====
-- New of services/tracking-service/internal/handler/handler.go: the routes of tracking-service. The
-- JSON of an answer is a parameter.
use trackflow.Prelude.{List, [], ◌∷◌, Option}
use trackflow.Text.{Text, text}
use trackflow.Http.Mux.{Route, literal, wildcard, route}
use trackflow.Tracking.Handler.{
  Request, Response, Payload, plain, handle_health, handle_get_order_timeline,
  handle_update_order_status,
}
use trackflow.Tracking.Service.{TrackingService}
use trackflow.Server.{Page, json_page, plain_page, Endpoint, metrics, page}

unfoldable pub rendered : (Payload → Text) → Response → Page
rendered encode response = elim response.payload [
  | plain what ↦ plain_page response.status what
  | _ ↦ json_page response.status (encode response.payload)
]

module _ {S : Type 0} (encode : Payload → Text) (svc : Option (TrackingService S)) where
  answering : (Text → Request → Request) → (Request → S → Response × S) → Endpoint Request S
  unfolding rendered
  answering placed handler = page λ value r s.
      let (response, after) = handler (placed value r) s in (rendered encode response, after)

  -- The wildcard is the path value id or order_id; the other one is empty.
  as_id : Text → Request → Request
  as_id value r = record r { path_id = value; path_order_id = [] }

  as_order_id : Text → Request → Request
  as_order_id value r = record r { path_id = []; path_order_id = value }

  unfoldable pub routes : List (Route (Endpoint Request S))
  unfolding answering as_id as_order_id
  routes =
      route (text "/metrics") (literal (text "metrics") ∷ []) metrics
      ∷ route (text "/health") (literal (text "health") ∷ []) (answering as_id (handle_health svc))
      ∷ route (text "/orders/{id}/timeline")
          (literal (text "orders") ∷ wildcard ∷ literal (text "timeline") ∷ [])
          (answering as_id (handle_get_order_timeline svc))
      ∷ route (text "/v1/orders/{order_id}/timeline")
          (literal (text "v1")
            ∷ literal (text "orders")
            ∷ wildcard
            ∷ literal (text "timeline")
            ∷ [])
          (answering as_order_id (handle_get_order_timeline svc))
      ∷ route (text "/orders/{id}/status")
          (literal (text "orders") ∷ wildcard ∷ literal (text "status") ∷ [])
          (answering as_id (handle_update_order_status svc))
      ∷ route (text "/v1/orders/{order_id}/status")
          (literal (text "v1") ∷ literal (text "orders") ∷ wildcard ∷ literal (text "status") ∷ [])
          (answering as_order_id (handle_update_order_status svc))
      ∷ []
