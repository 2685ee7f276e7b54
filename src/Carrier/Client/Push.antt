-- ===== src/Carrier/Client/Push.antt =====
-- What PushStatusUpdate in tracking_http.go sends, and what services/tracking-service makes of it.
use trackflow.Prelude.{
  ◌≡◌, ◌≤◌, ◌<◌, ◌⊎◌, inl, inr, Option, none, some, Result, ok, err, refl, arith, ◌++◌, Bool-cases,
}
use trackflow.Text.{Text, text, trim_space, text_eq, contains, to_lower}
use trackflow.Text.Escape.{path_escape}
use trackflow.Tracking.Service.{checked_status, checked_source}
use trackflow.Tracking.Status.{normalize_status_source}
use trackflow.Carrier.Model.{StatusUpdate}
use trackflow.Carrier.Mapping.{map_external_status}
use trackflow.Carrier.Mapping.Contract.{map_external_status-accepted}
use trackflow.Carrier.Client.{
  TrackingHttpClient, TrackingStatusUpdateRequest, TrackingResponse, tracking_status_source, mapped,
  required, judged, refusal, is_success, request_of, prepared, answered, post, pushed,
  push_status_update,
}

carrier_source-accepted : checked_source tracking_status_source ≡ ok tracking_status_source
unfolding checked_source normalize_status_source trim_space to_lower text_eq contains
carrier_source-accepted = refl

module _ {S : Type 0} (c : TrackingHttpClient S) (update : StatusUpdate) (st : S) where
  -- The request goes to the status of the trimmed order id, whose special characters are escaped,
  -- and its status and source are ones that the tracking service's checks accept as they stand.
  pub record Acceptable (req : TrackingStatusUpdateRequest) : Type 0 where
    pub endpoint :
        req.endpoint
        ≡ c.base_url
          ++ (text "/orders/" ++ (path_escape (trim_space update.order_id) ++ text "/status"))
    pub external : req.carrier_external_status ≡ trim_space update.external_status
    pub status_mapped : map_external_status (trim_space update.external_status) ≡ ok req.status
    pub status_accepted : checked_status req.status ≡ ok req.status
    pub source_accepted : checked_source req.source ≡ ok req.source

  -- The ways in which a push ends.
  pub data Push : Result Text (Unit {0}) × S → Type 0 where
    unsent : (e : Text) → prepared c update ≡ err e → Push (err e, st)
    unbuilt :
        (req : TrackingStatusUpdateRequest) (e : Text)
        → c.http.readable req.endpoint ≡ some e
        → Push (err (text "build request: " ++ e), st)
    delivered :
        (req : TrackingStatusUpdateRequest) (res : TrackingResponse) (st' : S)
        → Acceptable req
        → c.http.send req st ≡ (ok res, st')
        → 200 ≤ res.status_code
        → res.status_code < 300
        → Push (ok tt, st')
    turned_down :
        (req : TrackingStatusUpdateRequest) (res : TrackingResponse) (st' : S) (e : Text)
        → Acceptable req
        → c.http.send req st ≡ (ok res, st')
        → (res.status_code < 200) ⊎ (300 ≤ res.status_code)
        → Push (err e, st')
    lost :
        (req : TrackingStatusUpdateRequest) (st' : S) (e : Text)
        → Acceptable req
        → c.http.send req st ≡ (err e, st')
        → Push (err (text "send request: " ++ e), st')

  prepared-ok :
      {req : TrackingStatusUpdateRequest}
      → prepared c update ≡ ok req
      → (map_external_status (trim_space update.external_status) ≡ ok req.status)
        × (req.source ≡ tracking_status_source)
        × (req.endpoint
            ≡ c.base_url
              ++ (text "/orders/" ++ (path_escape (trim_space update.order_id) ++ text "/status")))
        × (req.carrier_external_status ≡ trim_space update.external_status)
  unfolding prepared required mapped request_of
  prepared-ok h = (ground arith, ground arith, ground arith, ground arith)

  prepared-Acceptable :
      (req : TrackingStatusUpdateRequest) → prepared c update ≡ ok req → Acceptable req
  prepared-Acceptable req h =
      let (known, by, place, told) = prepared-ok h in
      record {
        endpoint = place;
        external = told;
        status_mapped = known;
        status_accepted =
            map_external_status-accepted (trim_space update.external_status) req.status known;
        source_accepted = rw by carrier_source-accepted;
      }

  judged-cases :
      (res : TrackingResponse)
      → ((judged c res ≡ ok tt) × (200 ≤ res.status_code) × (res.status_code < 300))
        ⊎ ((e : Text) × (judged c res ≡ err e)
            × ((res.status_code < 200) ⊎ (300 ≤ res.status_code)))
  unfolding judged is_success
  judged-cases res = elim (Bool-cases (is_success c res)) [
    | inl fine ↦ inl (rw fine refl, ground arith, ground arith)
    | inr bad ↦ inr (refusal c res, rw bad refl, ground arith)
  ]

  answered-Push :
      (req : TrackingStatusUpdateRequest) (r : Result Text TrackingResponse × S)
      → Acceptable req
      → c.http.send req st ≡ r
      → Push (answered c r)
  unfolding answered
  answered-Push req (err e, st') good h = lost req st' e good h
  answered-Push req (ok res, st') good h = elim (judged-cases res) [
    | inl (fine, low, high) ↦ rw fine (delivered req res st' good h low high)
    | inr (e, bad, out) ↦ rw bad (turned_down req res st' e good h out)
  ]

  post-Push :
      (req : TrackingStatusUpdateRequest) (o : Option Text)
      → Acceptable req
      → c.http.readable req.endpoint ≡ o
      → Push (post c o req st)
  unfolding post
  post-Push req (some e) good h = unbuilt req e h
  post-Push req none good h = answered-Push req (c.http.send req st) good refl

  pushed-Push :
      (r : Result Text TrackingStatusUpdateRequest) → prepared c update ≡ r → Push (pushed c r st)
  unfolding pushed
  pushed-Push (err e) h = unsent e h
  pushed-Push (ok req) h =
      post-Push req (c.http.readable req.endpoint) (prepared-Acceptable req h) refl

  -- A push either sends nothing, with the state as it was, or sends one request, to the status of
  -- the trimmed order id, whose status is what the mapping gives for the trimmed external status
  -- and whose status and source the checks of the tracking service accept as they are. It succeeds exactly on an answer from 200 to 299;
  -- another answer, or none, is an error.
  pub push_status_update-Push : Push (push_status_update c update st)
  unfolding push_status_update
  push_status_update-Push = pushed-Push (prepared c update) refl
