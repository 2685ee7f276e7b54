-- ===== src/Gateway/Proxy/Forwarding.antt =====
-- What reaches order-service through services/api-gateway/internal/gateway/proxy.go.
use trackflow.Prelude.{◌≡◌, true, some, Result, ok, err, arith, refl, inl, inr, sym, ◌≢◌, ◌∙◌}
use trackflow.Text.{Text, text, text_eq, trim_space}
use trackflow.Text.Laws.{text_eq_iff}
use trackflow.Http.{Header, get}
use trackflow.Order.Model.{CreateOrderInput}
use trackflow.Order.Validation.{normalize_create_input}
use trackflow.Order.Service.{checked_key}
use trackflow.Tracking.Handler.{decode_body}
use trackflow.Gateway.Error.{HttpError}
use trackflow.Gateway.Validation.{
  Request, validate_create_order_request, validate_create_payload, decode_and_restore_json_body,
}
use trackflow.Gateway.Validation.Agreement.{is_ok, validate_create_payload-agrees}
use trackflow.Gateway.Validation.Refusals.{
  Result-cases, is_ok-ok, is_400, Is400, checks, validate_create_payload-400,
  decode_and_restore_json_body-400, decode_and_restore_json_body-ok,
}
use trackflow.Gateway.Upstream.{Formats}
use trackflow.Gateway.Proxy.{GatewayProxy, Answer, orders_collection, collection_checks, forward}

module _ (r : Request) where
  abbrev raw_key : Text
  raw_key = get r.header (text "Idempotency-Key")

  -- What a creation that passes the gateway's checks holds.
  pub record IsPassed : Type 0 where
    pub key : checked_key raw_key ≡ ok (trim_space raw_key)
    pub payload : CreateOrderInput
    pub decoded : decode_body r.create_body ≡ some payload
    pub normalized : CreateOrderInput
    pub accepted : normalize_create_input payload ≡ ok normalized

  passed_parts :
      (payload : CreateOrderInput)
      → decode_and_restore_json_body r r.create_body ≡ ok payload
      → validate_create_order_request r ≡ ok tt
      → (checked_key raw_key ≡ ok (trim_space raw_key))
        × (is_ok (validate_create_payload payload) ≡ true)
  unfolding validate_create_order_request checked_key
  passed_parts payload read h = (ground arith, ground arith)

  not_passed :
      (e : HttpError)
      → decode_and_restore_json_body r r.create_body ≡ err e
      → validate_create_order_request r ≢ ok tt
  unfolding validate_create_order_request
  not_passed e bad h = ground arith

  validate_create_order_request-ok : validate_create_order_request r ≡ ok tt → IsPassed
  validate_create_order_request-ok h =
      elim (Result-cases (decode_and_restore_json_body r r.create_body)) [
        | inl (payload, read) ↦
            let (key, valid) = passed_parts payload read h in
            let (normalized, accepted) =
              is_ok-ok (normalize_create_input payload)
                (sym (validate_create_payload-agrees payload) ∙ valid) in
            record {
              key = key;
              payload = payload;
              decoded = decode_and_restore_json_body-ok r r.create_body read;
              normalized = normalized;
              accepted = accepted;
            }
        | inr (e, bad) ↦ absurd (not_passed e bad h)
      ]

validate_create_order_request-400 : (r : Request) → Is400 (validate_create_order_request r)
unfolding validate_create_order_request
validate_create_order_request-400 r =
    search (checks, decode_and_restore_json_body-400, validate_create_payload-400)

module _ {S : Type 0} (f : Formats) (p : GatewayProxy S) (own : Header) (r : Request) (s : S) where
  -- The ways in which a creation goes.
  pub data Creation : Result HttpError Answer × S → Type 0 where
    refused : (e : HttpError) → e.status ≡ 400 → Creation (err e, s)
    passed : IsPassed r → Creation (forward f p own r p.order_base s)

  post_checks :
      text_eq r.method (text "POST") ≡ true
      → collection_checks f p own r ≡ validate_create_order_request r
  unfolding collection_checks text_eq
  post_checks post = rw ((text_eq_iff r.method (text "POST")).0 post) refl

  -- A request for a creation is either refused under 400, with nothing sent, or forwarded to
  -- order-service; then its key and its decoded body pass the checks of order-service too.
  pub orders_collection-Creation :
      text_eq r.method (text "POST") ≡ true → Creation (orders_collection f p own r s)
  unfolding orders_collection
  orders_collection-Creation post =
      rw (post_checks post) (elim (Result-cases (validate_create_order_request r)) [
        | inl (done, fine) ↦ rw fine (passed (validate_create_order_request-ok r fine))
        | inr (e, bad) ↦ rw bad (
            refused e
              (is_400 (validate_create_order_request r) bad (validate_create_order_request-400 r)))
      ])
