-- ===== src/Gateway/Headers/Passing.antt =====
-- The request id on its way from the gateway through a service.
use trackflow.Prelude.{ℕ, [], ◌∙◌, ◌≡◌, List, arith, refl, false, Option, [], ◌∷◌}
use trackflow.Text.{Text, trim_space, is_empty}
use trackflow.Text.Laws.{trim_space-trim_space}
use trackflow.Http.{Header, get, add}
use trackflow.Http.Laws.{get-both, get-add}
use trackflow.RequestId.{
  Context, with_request_id, from_context, resolve_from_headers, set_headers, incoming_id,
  middleware, apply_to_request,
}
use trackflow.Gateway.Headers.{set_request_id_headers, add_all, copy_headers}

module _ (id : Text) (header : Header) where
  -- Both functions that set the id are one.
  set_headers_same : set_headers header id ≡ set_request_id_headers header id
  unfolding set_headers set_request_id_headers
  set_headers_same = refl

  resolve_from_headers-set :
      is_empty (trim_space id) ≡ false
      → resolve_from_headers (set_request_id_headers header id) ≡ trim_space id
  unfolding resolve_from_headers set_request_id_headers
  resolve_from_headers-set given =
      let (first, second) = get-both header (trim_space id) in
      rw given (rw first (rw (trim_space-trim_space id) (rw given)))

  incoming_id-set :
      (random : Option (List ℕ))
      → is_empty (trim_space id) ≡ false
      → incoming_id random (set_request_id_headers header id) ≡ trim_space id
  unfolding incoming_id
  incoming_id-set random given = rw (resolve_from_headers-set given) (rw given)

resolve_from_headers-set_headers :
    (id : Text) (header : Header)
    → is_empty (trim_space id) ≡ false
    → resolve_from_headers (set_headers header (trim_space id)) ≡ trim_space id
resolve_from_headers-set_headers id header given = rw (set_headers_same (trim_space id) header) (
    resolve_from_headers-set (trim_space id) header (rw (trim_space-trim_space id) given)
    ∙ trim_space-trim_space id)

nothing_resolved : resolve_from_headers [] ≡ []
unfolding resolve_from_headers trim_space get
nothing_resolved = refl

-- The id of a call that is made in the context of the request.
apply_to_request_carried :
    (id : Text) (random : Option (List ℕ)) (ctx : Context)
    → is_empty (trim_space id) ≡ false
    → apply_to_request random (with_request_id ctx (trim_space id)) []
      ≡ (trim_space id, set_headers [] (trim_space id))
unfolding apply_to_request from_context with_request_id
apply_to_request_carried id random ctx given = ground (
  arith,
  nothing_resolved,
  given,
  trim_space-trim_space id,
  trim_space-trim_space (trim_space id),
)

-- An id that is not blank, which the gateway sets on the request to a service, reaches the headers
-- of the service's own calls: its middleware takes it into the context, and a call made in that
-- context carries it, trimmed.
pub apply_to_request-middleware :
    (id : Text) (random random' : Option (List ℕ)) (header answer : Header) (ctx : Context)
    → is_empty (trim_space id) ≡ false
    → let entered = middleware random (set_request_id_headers header id) answer ctx in
      (resolve_from_headers entered.0 ≡ trim_space id)
      × ((apply_to_request random' entered.1 []).0 ≡ trim_space id)
      × (resolve_from_headers (apply_to_request random' entered.1 []).1 ≡ trim_space id)
unfolding middleware
apply_to_request-middleware id random random' header answer ctx given =
    rw (incoming_id-set id header random given) (
      rw (apply_to_request_carried id random' ctx given) (
        resolve_from_headers-set_headers id answer given,
        refl,
        resolve_from_headers-set_headers id [] given,
      ))

get-add_all :
    (header : Header) (other : Text) (values : List Text) (key : Text)
    → is_empty (get header key) ≡ false
    → get (add_all header other values) key ≡ get header key
unfolding add_all
get-add_all header other [] key h = refl
get-add_all header other (value ∷ values) key h =
    let first = get-add header other value key h in
    get-add_all (add header other value) other values key (rw first h) ∙ first

-- Copied headers come behind those that are there.
pub get-copy_headers :
    (header source : Header) (key : Text)
    → is_empty (get header key) ≡ false
    → get (copy_headers header source) key ≡ get header key
unfolding copy_headers
get-copy_headers header [] key h = refl
get-copy_headers header ((other, values) ∷ source) key h =
    let first = get-add_all header other values key h in
    get-copy_headers (add_all header other values) source key (rw first h) ∙ first
