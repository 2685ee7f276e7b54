-- ===== src/Gateway/Proxy/Updates.antt =====
-- What reaches tracking-service through services/api-gateway/internal/gateway/proxy.go.
use trackflow.Prelude.{
  ◌≡◌, ◌≤◌, true, some, Result, ok, err, arith, refl, inl, inr, sym, ap, ◌∙◌, Bool-cases,
}
use trackflow.Text.{Text, text, text_eq, is_empty}
use trackflow.Http.{Header}
use trackflow.Tracking.Model.{UpdateStatusInput}
use trackflow.Tracking.Service.{checked_id, checked_status, checked_source}
use trackflow.Tracking.Handler.{decode_body}
use trackflow.Prelude.Action.{proceed, lift}
use trackflow.Gateway.Error.{HttpError, method_not_allowed}
use trackflow.Gateway.Validation.{
  Request, Parsed, not_json, json_object, other_value, validate_metadata, validate_order_id,
  validate_update_payload, validate_update_status_request, decode_and_restore_json_body,
}
use trackflow.Gateway.Validation.Agreement.{is_ok, id_agreement, validate_update_payload-accepted}
use trackflow.Gateway.Validation.Refusals.{
  Result-cases, is_400, Is400, checks, decode_and_restore_json_body-400,
  decode_and_restore_json_body-ok,
}
use trackflow.Gateway.Upstream.{Formats}
use trackflow.Gateway.Proxy.{GatewayProxy, Answer, update_order_status, forward, only}

validate_order_id-400 : (id : Text) → Is400 (validate_order_id id)
unfolding validate_order_id
validate_order_id-400 id = search checks

module _ (parse : Text → Parsed) where
  validate_metadata-400 : (p : Parsed) → Is400 (validate_metadata p)
  unfolding validate_metadata
  validate_metadata-400 not_json = refl
  validate_metadata-400 json_object = tt
  validate_metadata-400 other_value = refl

  validate_update_payload-400 :
      (payload : UpdateStatusInput) → Is400 (validate_update_payload parse payload)
  unfolding validate_update_payload
  validate_update_payload-400 payload = elim (Bool-cases (is_empty payload.metadata)) [
    | inl missing ↦ rw missing (search checks depth 12)
    | inr given ↦ rw given (search (checks, validate_metadata-400) depth 12)
  ]

  validate_update_status_request-400 :
      (r : Request) → Is400 (validate_update_status_request parse r)
  unfolding validate_update_status_request
  validate_update_status_request-400 r =
      search (checks, decode_and_restore_json_body-400, validate_update_payload-400)

  -- What an update that passes the gateway's checks holds.
  pub record IsPassedUpdate (r : Request) : Type 0 where
    pub payload : UpdateStatusInput
    pub decoded : decode_body r.update_body ≡ some payload
    pub id : is_ok (checked_id r.path_id) ≡ true
    pub status : is_ok (checked_status payload.status) ≡ true
    pub source : is_ok (checked_source payload.source) ≡ true

  module _ {S : Type 0} (f : Formats) (p : GatewayProxy S) (own : Header) (r : Request)
      (s : S) where
    -- The ways in which a status update goes.
    pub data Update : Result HttpError Answer × S → Type 0 where
      refused : (e : HttpError) → 400 ≤ e.status → Update (err e, s)
      passed : IsPassedUpdate r → Update (forward f p own r p.tracking_base s)

    checked :
        (payload : UpdateStatusInput)
        → validate_order_id r.path_id ≡ ok tt
        → decode_and_restore_json_body r r.update_body ≡ ok payload
        → validate_update_payload parse payload ≡ ok tt
        → IsPassedUpdate r
    checked payload known read valid =
        let (status, source) = validate_update_payload-accepted parse payload valid in
        record {
          payload = payload;
          decoded = decode_and_restore_json_body-ok r r.update_body read;
          id = sym (id_agreement r.path_id) ∙ ap is_ok known;
          status = status;
          source = source;
        }

    body_of :
        validate_update_status_request parse r ≡ ok tt
        → (payload : UpdateStatusInput) × (decode_and_restore_json_body r r.update_body
            ≡ ok payload)
          × (validate_update_payload parse payload ≡ ok tt)
    unfolding validate_update_status_request
    body_of h = elim (Result-cases (decode_and_restore_json_body r r.update_body)) [
      | inl (payload, read) ↦ (payload, read, rw read at h)
      | inr (e, bad) ↦ let broken = rw bad at h in cc
    ]

    after_id :
        validate_order_id r.path_id ≡ ok tt
        → Update (
            proceed
              (lift (validate_update_status_request parse r) s)
              λ done. forward f p own r p.tracking_base)
    after_id known = elim (Result-cases (validate_update_status_request parse r)) [
      | inl (done, fine) ↦
          let (payload, read, valid) = body_of fine in
          rw fine (passed (checked payload known read valid))
      | inr (e, bad) ↦
          let status = is_400 _ bad (validate_update_status_request-400 r) in
          rw bad (refused e (omega arith))
    ]

    -- A status update is either refused under 400 or more, with nothing sent, or forwarded to
    -- tracking-service; then its id and its decoded body pass the checks of tracking-service too.
    pub update_order_status-Update : Update (update_order_status f p own parse r s)
    unfolding update_order_status only method_not_allowed
    update_order_status-Update = elim (Bool-cases (text_eq r.method (text "POST"))) [
      | inl post ↦ rw post (elim (Result-cases (validate_order_id r.path_id)) [
        | inl (done, known) ↦ rw known (after_id known)
        | inr (e, bad) ↦
            let status = is_400 _ bad (validate_order_id-400 r.path_id) in
            rw bad (refused e (omega arith))
      ])
      | inr other ↦ rw other (refused _ (omega arith))
    ]
