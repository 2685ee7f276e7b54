-- ===== src/Gateway/Proxy/Identity.antt =====
-- The request id in the answers that services/api-gateway/internal/gateway/proxy.go passes on.
use trackflow.Prelude.{
  ◌≡◌, false, Bool-cases, inl, inr, Result, ok, err, Option, none, some, leb, Option-cases,
}
use trackflow.Prelude.Action.{Action, lift, ◌>>◌}
use trackflow.Text.{Text, is_empty, text}
use trackflow.Http.{Header, get, request_id_header}
use trackflow.Gateway.Headers.Passing.{get-copy_headers}
use trackflow.Gateway.Error.{HttpError}
use trackflow.Gateway.Upstream.{Formats, Url, UpstreamResponse}
use trackflow.Gateway.Validation.{
  Request, Parsed, validate_order_id, validate_assign_order_request, validate_update_status_request,
  validate_limit, max_timeline_list_limit,
}
use trackflow.Gateway.Proxy.{
  Answer, GatewayProxy, Client, UpstreamRequest, SendError, forward, answered, sent, relay, only,
  upstream_request, orders_collection, order_by_id, assign_order, update_order_status,
  get_order_timeline, collection_checks,
}

-- An answer whose request id is that of the writer.
unfoldable pub Keeps : {S : Type 0} → Header → Result HttpError Answer × S → Type 0
Keeps own (ok answer, s) = get answer.header request_id_header ≡ get own request_id_header
Keeps own (err e, s) = Unit

-- A handler's check, and what follows it.
checked :
    {S : Type 0} (own : Header) (check : Result HttpError (Unit {0}))
    (rest : Action S HttpError Answer)
    → ((s : S) → Keeps own (rest s))
    → (s : S) → Keeps own ((lift check >> rest) s)
unfolding Keeps
checked own (ok done) rest h s = h s
checked own (err e) rest h s = tt

module _ {S : Type 0} (f : Formats) (p : GatewayProxy S) (own : Header)
    (given : is_empty (get own request_id_header) ≡ false) where
  answered-Keeps : (o : Result SendError UpstreamResponse × S) → Keeps own (answered f p own o)
  unfolding Keeps answered relay
  answered-Keeps (ok resp, s) = elim (Bool-cases (leb 400 resp.status_code)) [
    | inl bad ↦ rw bad tt
    | inr good ↦ rw good (get-copy_headers own resp.header request_id_header given)
  ]
  answered-Keeps (err e, s) = tt

  sent-Keeps :
      (client : Client S) (request : UpstreamRequest) (s : S)
      → Keeps own (sent f p own client request s)
  unfolding sent Keeps
  sent-Keeps client request s = elim (Bool-cases (client.prepares request.method request.url)) [
    | inl ready ↦ rw ready (answered-Keeps (client.deliver request s))
    | inr refused ↦ rw refused tt
  ]

  pub forward-Keeps :
      (r : Request) (base : Option Url) (s : S) → Keeps own (forward f p own r base s)
  unfolding forward Keeps
  forward-Keeps r none s = elim (Option-cases p.client) [
    | inl absent ↦ rw absent tt
    | inr (client, there) ↦ rw there tt
  ]
  forward-Keeps r (some url) s = elim (Option-cases p.client) [
    | inl absent ↦ rw absent tt
    | inr (client, there) ↦ rw there (sent-Keeps client (upstream_request f p own r url) s)
  ]

  module _ (r : Request) where
    only-checked :
        (method : Text) (rest : Action S HttpError Answer)
        → ((s : S) → Keeps own (rest s))
        → (s : S) → Keeps own ((lift (only f p own method r) >> rest) s)
    only-checked method = checked own (only f p own method r)

    -- A check of the path, another check, and the forwarding.
    on_order :
        (check : Result HttpError (Unit {0})) (base : Option Url) (s : S)
        → Keeps own
            ((lift (validate_order_id r.path_id) >> (lift check >> forward f p own r base)) s)
    on_order check base =
        checked own (validate_order_id r.path_id) (lift check >> forward f p own r base)
          (checked own check (forward f p own r base) (forward-Keeps r base))

    pub orders_collection-Keeps : (s : S) → Keeps own (orders_collection f p own r s)
    unfolding orders_collection
    orders_collection-Keeps =
        checked own (collection_checks f p own r) (forward f p own r p.order_base)
          (forward-Keeps r p.order_base)

    pub order_by_id-Keeps : (s : S) → Keeps own (order_by_id f p own r s)
    unfolding order_by_id
    order_by_id-Keeps = only-checked (text "GET") _ (
        checked own (validate_order_id r.path_id) (forward f p own r p.order_base)
          (forward-Keeps r p.order_base))

    pub assign_order-Keeps : (s : S) → Keeps own (assign_order f p own r s)
    unfolding assign_order
    assign_order-Keeps =
        only-checked (text "POST") _ (on_order (validate_assign_order_request r) p.order_base)

    pub update_order_status-Keeps :
        (parse : Text → Parsed) (s : S) → Keeps own (update_order_status f p own parse r s)
    unfolding update_order_status
    update_order_status-Keeps parse =
        only-checked (text "POST") _
          (on_order (validate_update_status_request parse r) p.tracking_base)

    pub get_order_timeline-Keeps : (s : S) → Keeps own (get_order_timeline f p own r s)
    unfolding get_order_timeline
    get_order_timeline-Keeps =
        only-checked (text "GET") _
          (on_order (validate_limit r.limit max_timeline_list_limit) p.tracking_base)
