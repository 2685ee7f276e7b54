-- ===== src/Notification/Router.antt =====
-- New of services/notification-service/internal/handler/handler.go: the routes of
-- notification-service. The JSON of an answer is a parameter.
use trackflow.Prelude.{List, [], ◌∷◌, Option, ◌==◌, if◌then◌else◌}
use trackflow.Text.{Text, text}
use trackflow.Http.Mux.{Route, literal, route}
use trackflow.Notification.Handler.{Request, Response, handle_health, handle_send}
use trackflow.Notification.Service.{NotificationService, DedupState}
use trackflow.Server.{Page, json_page, plain_page, Endpoint, metrics, page}

-- An answer of the handler health, which is plain where it is 200.
health_page : (Response → Text) → Response → Page
health_page encode response =
    if response.status == 200
    then plain_page 200 response.message
    else json_page response.status (encode response)

module _ {S : Type 0} (encode : Response → Text) (svc : Option (NotificationService S)) where
  unfoldable pub routes : List (Route (Endpoint Request (DedupState × S)))
  unfolding health_page
  routes =
      route (text "/metrics") (literal (text "metrics") ∷ []) metrics
      ∷ route (text "/health") (literal (text "health") ∷ [])
          (page λ value r s. (health_page encode (handle_health svc r), s))
      ∷ route (text "/internal/notifications/send")
          (literal (text "internal") ∷ literal (text "notifications") ∷ literal (text "send") ∷ [])
          (page λ value r s.
            let (response, after) = handle_send svc r s in
            (json_page response.status (encode response), after))
      ∷ []
