-- ===== src/Carrier/Router.antt =====
-- New of services/carrier-sync-service/internal/handler/handler.go: the routes of
-- carrier-sync-service. The JSON of an answer is a parameter.
use trackflow.Prelude.{List, [], ◌∷◌, Option}
use trackflow.Text.{Text, text}
use trackflow.Http.Mux.{Route, literal, route}
use trackflow.Carrier.Model.{StatusUpdate}
use trackflow.Carrier.Handler.{Request, Response, Payload, plain, handle_health, handle_run_sync}
use trackflow.Carrier.Service.{SyncService}
use trackflow.Server.{Page, json_page, plain_page, Endpoint, metrics, page}

unfoldable pub rendered : (Payload → Text) → Response → Page
rendered encode response = elim response.payload [
  | plain what ↦ plain_page response.status what
  | _ ↦ json_page response.status (encode response.payload)
]

module _ {S : Type 0} (encode : Payload → Text) (svc : Option (SyncService S)) where
  unfoldable pub routes : List (Route (Endpoint Request (List StatusUpdate × S)))
  unfolding rendered
  routes =
      route (text "/metrics") (literal (text "metrics") ∷ []) metrics
      ∷ route (text "/health") (literal (text "health") ∷ [])
          (page λ value r s. (rendered encode (handle_health svc r), s))
      ∷ route (text "/internal/sync/run")
          (literal (text "internal") ∷ literal (text "sync") ∷ literal (text "run") ∷ [])
          (page λ value r s.
            let (response, after) = handle_run_sync svc r s in (rendered encode response, after))
      ∷ []
