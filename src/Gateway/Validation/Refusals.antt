-- ===== src/Gateway/Validation/Refusals.antt =====
-- The errors of the checks of services/api-gateway/internal/gateway/validation.go.
use trackflow.Prelude.{
  ◌≡◌, Bool, true, false, some, Result, ok, err, arith, refl, inl, inr, ◌⊎◌, Option-cases, ◌>>=◌,
}
use trackflow.Text.{Text}
use trackflow.Order.Model.{AddressInput, CreateOrderInput}
use trackflow.Tracking.Handler.{Body, decode_body}
use trackflow.Gateway.Error.{HttpError}
use trackflow.Gateway.Validation.{
  Request, validate_create_payload, validate_create_address, decode_and_restore_json_body,
  decode_content, refuse_if,
}
use trackflow.Gateway.Validation.Agreement.{is_ok}

pub Result-cases :
    {E A : Type 0} (r : Result E A) → ((a : A) × (r ≡ ok a)) ⊎ ((e : E) × (r ≡ err e))
Result-cases (ok a) = inl (a, refl)
Result-cases (err e) = inr (e, refl)

pub is_ok-ok : {E A : Type 0} (r : Result E A) → is_ok r ≡ true → (a : A) × (r ≡ ok a)
is_ok-ok (ok a) h = (a, refl)
is_ok-ok (err e) h = cc

-- If a check refuses, it does so under 400.
abbrev pub Is400 : {A : Type 0} → Result HttpError A → Type 0
Is400 (ok a) = Unit
Is400 (err e) = e.status ≡ 400

pub then_400 :
    {A B : Type 0} (m : Result HttpError A) (f : A → Result HttpError B)
    → Is400 m
    → ((a : A) → Is400 (f a))
    → Is400 (m >>= f)
then_400 (ok a) f h k = k a
then_400 (err e) f h k = h

pub refuse_if-400 : (test : Bool) (message : Text) → Is400 (refuse_if test message)
refuse_if-400 true message = refl
refuse_if-400 false message = tt

pub is_400 :
    {A : Type 0} (m : Result HttpError A) {e : HttpError} → m ≡ err e → Is400 m → e.status ≡ 400
is_400 (ok a) h bad = cc
is_400 (err e) h bad = ground (arith, bad)

-- A sequence of checks.
pub ruleset checks = (then_400, refuse_if-400)

validate_create_address-400 :
    (field : Text) (address : AddressInput) → Is400 (validate_create_address field address)
unfolding validate_create_address
validate_create_address-400 field address = search checks

pub validate_create_payload-400 :
    (payload : CreateOrderInput) → Is400 (validate_create_payload payload)
unfolding validate_create_payload
validate_create_payload-400 payload = search (checks, validate_create_address-400) depth 12

decode_content-400 :
    {A : Type 0} (body : Body A) (content : Text) → Is400 (decode_content body content)
unfolding decode_content
decode_content-400 body content = elim (Option-cases (decode_body body)) [
  | inl bad ↦ rw bad (search checks)
  | inr (value, good) ↦ rw good (search checks)
]

pub decode_and_restore_json_body-400 :
    {A : Type 0} (r : Request) (body : Body A) → Is400 (decode_and_restore_json_body r body)
unfolding decode_and_restore_json_body
decode_and_restore_json_body-400 r body = elim (Option-cases r.content) [
  | inl unread ↦ rw unread refl
  | inr (content, read) ↦ rw read (decode_content-400 body content)
]

pub decode_and_restore_json_body-ok :
    {A : Type 0} (r : Request) (body : Body A) {value : A}
    → decode_and_restore_json_body r body ≡ ok value
    → decode_body body ≡ some value
unfolding decode_and_restore_json_body decode_content
decode_and_restore_json_body-ok r body h = ground arith
