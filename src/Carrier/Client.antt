-- ===== src/Carrier/Client.antt =====
-- services/carrier-sync-service/internal/client/tracking_http.go. The transport, the JSON of an
-- error response, the calendar and the table of status texts are parameters. A request carries the
-- fields that its JSON body holds; a response carries the body as far as it is read.
pub mod Push
use trackflow.Prelude.{
  ◌≡◌, ℕ, zero, suc, ◌+◌, ◌/◌, ◌%◌, ◌||◌, ◌&&◌, Bool, true, false, List, [], ◌∷◌, ◌++◌, Option,
  none, some, Result, ok, err, if◌then◌else◌, leb, ltb, ◌==◌, fail_if, ◌>>=◌,
}
use trackflow.Prelude.Action.{Action}
use trackflow.Text.Number.{decimal}
use trackflow.Text.Escape.{path_escape}
use trackflow.Text.{Text, text, trim_space, is_empty}
use trackflow.Carrier.Model.{StatusUpdate}
use trackflow.Carrier.Mapping.{Error, empty_status, unknown_status, map_external_status}
use trackflow.Carrier.Worker.{TrackingStatusClient}

abbrev pub tracking_status_source : Text
tracking_status_source = text "carrier_sync"

pub record TrackingStatusUpdateRequest : Type 0 where
  pub endpoint : Text
  pub status : Text
  pub source : Text
  pub carrier_external_status : Text
  pub carrier_updated_at : Option Text

pub record TrackingResponse : Type 0 where
  pub status_code : ℕ
  pub body : Text

-- http.Client.Do, and http.NewRequest before it, which reads the address.
pub record HttpClient (S : Type 0) : Type 0 where
  pub readable : Text → Option Text
  pub send : TrackingStatusUpdateRequest → Action S Text TrackingResponse

pub record TrackingHttpClient (S : Type 0) : Type 0 where
  pub base_url : Text
  pub http : HttpClient S
  -- UTC().Format(time.RFC3339) and http.StatusText.
  pub rfc3339 : ℕ → Text
  pub status_text : ℕ → Text
  -- The field `error` of a JSON body.
  pub error_field : Text → Option Text

mapping_message : Error → Text
mapping_message empty_status = text "unknown carrier status: empty status"
mapping_message (unknown_status status) = text "unknown carrier status: " ++ status

pub mapped : Text → Result Text Text
unfolding mapping_message
mapped status = elim (map_external_status status) [
  | err e ↦ err (text "map external status: " ++ mapping_message e)
  | ok internal_status ↦ ok internal_status
]

-- A text that must not be blank, trimmed.
pub required : Text → Text → Result Text Text
required what value =
    let trimmed = trim_space value in if is_empty trimmed then err what else ok trimmed

module _ {S : Type 0} (c : TrackingHttpClient S) where
  extract_tracking_error : Text → Text
  extract_tracking_error raw_body = elim (c.error_field raw_body) [
    | none ↦ []
    | some message ↦ trim_space message
  ]

  -- The message of a response that is no success.
  failure_message : TrackingResponse → Text
  unfolding extract_tracking_error
  failure_message res =
      let message = extract_tracking_error res.body in
      let body = trim_space res.body in
      if is_empty message
      then (if is_empty body then c.status_text res.status_code else body)
      else message

  pub is_success : TrackingResponse → Bool
  is_success res = leb 200 res.status_code && ltb res.status_code 300

  pub refusal : TrackingResponse → Text
  unfolding failure_message
  refusal res =
      text "tracking service returned status "
      ++ (decimal res.status_code ++ (text ": " ++ failure_message res))

  -- What a response makes of the push.
  pub judged : TrackingResponse → Result Text (Unit {0})
  unfolding is_success refusal
  judged res = if is_success res then ok tt else err (refusal res)

  updated_at_field : ℕ → Option Text
  updated_at_field at = if at == 0 then none else some (c.rfc3339 at)

  pub request_of : Text → Text → Text → ℕ → TrackingStatusUpdateRequest
  unfolding updated_at_field
  request_of order_id internal_status status at = record {
    endpoint = c.base_url ++ (text "/orders/" ++ (path_escape order_id ++ text "/status"));
    status = internal_status;
    source = tracking_status_source;
    carrier_external_status = status;
    carrier_updated_at = updated_at_field at;
  }

  -- The checks and the mapping that come before anything is sent.
  pub prepared : StatusUpdate → Result Text TrackingStatusUpdateRequest
  unfolding required mapped request_of
  prepared update = do
    order_id ← required (text "order_id is required") update.order_id
    status ← required (text "external_status is required") update.external_status
    internal_status ← mapped status
    ok (request_of order_id internal_status status update.updated_at)

  pub answered : Result Text TrackingResponse × S → Result Text (Unit {0}) × S
  unfolding judged
  answered (ok res, st) = (judged res, st)
  answered (err e, st) = (err (text "send request: " ++ e), st)

  pub post : Option Text → TrackingStatusUpdateRequest → Action S Text (Unit {0})
  unfolding answered
  post (some e) req st = (err (text "build request: " ++ e), st)
  post none req st = answered (c.http.send req st)

  pub pushed : Result Text TrackingStatusUpdateRequest → Action S Text (Unit {0})
  unfolding post
  pushed (err e) st = (err e, st)
  pushed (ok req) st = post (c.http.readable req.endpoint) req st

  unfoldable pub push_status_update : StatusUpdate → Action S Text (Unit {0})
  unfolding prepared pushed
  push_status_update update = pushed (prepared update)

  -- The client as the worker is given it.
  unfoldable pub tracking_status_client : TrackingStatusClient S
  unfolding push_status_update
  tracking_status_client = record { push_status_update = push_status_update }
