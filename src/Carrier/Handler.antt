-- ===== src/Carrier/Handler.antt =====
-- services/carrier-sync-service/internal/handler/handler.go
-- A request carries its method and its query parameter. Deadlines are not modelled.
use trackflow.Prelude.{
  ℕ, ℤ, pos, lebℤ, Bool, not, List, Option, none, some, Result, ok, err, if◌then◌else◌, length,
}
use trackflow.Text.{Text, text, text_eq, is_empty}
use trackflow.Text.Number.{atoi}
use trackflow.Carrier.Model.{StatusUpdate}
use trackflow.Carrier.Service.{SyncService, SyncResult, health, sync_once_with_fallback}

pub record Request : Type 0 where
  pub method : Text
  pub batch : Text

pub data Payload : Type 0 where
  plain : Text → Payload
  error_response : Text → Payload
  sync_response :
      (fetched : ℕ) (items : List StatusUpdate) (status_source : Text) (fallback_used : Bool)
      → Payload

pub record Response : Type 0 where
  pub status : ℕ
  pub payload : Payload

abbrev write_error : ℕ → Text → Response
write_error status what = record { status = status; payload = error_response what }

unfoldable pub parse_batch : Text → Result Text ℤ
unfolding atoi
parse_batch raw = if is_empty raw then ok (pos 0) else elim (atoi raw) [
  | none ↦ err (text "batch must be an integer")
  | some batch ↦
      if lebℤ batch (pos 0) then err (text "batch must be greater than zero") else ok batch
]

health_reply : Result Text (Unit {0}) → Response
health_reply (ok done) = record { status = 200; payload = plain (text "ok") }
health_reply (err e) = write_error 503 (text "carrier client unavailable")

sync_reply : Result Text SyncResult → Response
sync_reply (err e) = write_error 500 (text "sync run failed")
sync_reply (ok result) = record {
  status = 200;
  payload =
      sync_response (length result.updates) result.updates result.status_source
        result.fallback_used;
}

module _ {S : Type 0} where
  unfoldable pub handle_health : Option (SyncService S) → Request → Response
  unfolding health_reply
  handle_health svc r =
      if not (text_eq r.method (text "GET"))
      then write_error 405 (text "method not allowed")
      else elim svc [
        | none ↦ write_error 503 (text "service unavailable")
        | some svc ↦ health_reply (health svc)
      ]

  run_batch :
      SyncService S → Result Text ℤ → List StatusUpdate × S → Response × (List StatusUpdate × S)
  unfolding sync_reply
  run_batch svc (err what) st = (write_error 400 what, st)
  run_batch svc (ok batch) st =
      let (result, after) = sync_once_with_fallback svc batch st in (sync_reply result, after)

  -- The state is that of the service beside that of the carrier's client.
  unfoldable pub handle_run_sync :
      Option (SyncService S) → Request → List StatusUpdate × S → Response × (List StatusUpdate × S)
  unfolding run_batch parse_batch
  handle_run_sync svc r st =
      if not (text_eq r.method (text "POST"))
      then (write_error 405 (text "method not allowed"), st)
      else elim svc [
        | none ↦ (write_error 503 (text "service unavailable"), st)
        | some svc ↦ run_batch svc (parse_batch r.batch) st
      ]
