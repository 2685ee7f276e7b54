-- ===== src/Gateway/Proxy/Sending.antt =====
-- Every way through forward of services/api-gateway/internal/gateway/proxy.go.
use trackflow.Prelude.{◌≡◌, true, false, some, Result, ok, err, leb, refl, Bool-cases, inl, inr}
use trackflow.Http.{Header}
use trackflow.Gateway.Error.{HttpError}
use trackflow.Gateway.Headers.{copy_headers}
use trackflow.Gateway.Upstream.{Url, UpstreamResponse, Formats, upstream_failure}
use trackflow.Gateway.Validation.{Request}
use trackflow.Gateway.Proxy.{
  GatewayProxy, Client, UpstreamRequest, SendError, Answer, forward, send_failure, answered, sent,
  relay, upstream_request,
}

abbrev pub relayed_answer : Header → UpstreamResponse → Answer
relayed_answer own resp = record {
  status = resp.status_code;
  header = copy_headers own resp.header;
  body = resp.body;
}

module _ {S : Type 0} (f : Formats) (p : GatewayProxy S) (own : Header) where
  pub data Sent (client : Client S) (request : UpstreamRequest) (s : S)
      : Result HttpError Answer × S → Type 0 where
    unprepared : (e : HttpError) → Sent client request s (err e, s)
    unanswered :
        (e : SendError) (after : S)
        → client.deliver request s ≡ (err e, after)
        → Sent client request s (err (send_failure e), after)
    refused :
        (resp : UpstreamResponse) (after : S)
        → client.deliver request s ≡ (ok resp, after)
        → leb 400 resp.status_code ≡ true
        → Sent client request s (err (upstream_failure f resp), after)
    relayed :
        (resp : UpstreamResponse) (after : S)
        → client.deliver request s ≡ (ok resp, after)
        → leb 400 resp.status_code ≡ false
        → Sent client request s (ok (relayed_answer own resp), after)

  module _ (client : Client S) (request : UpstreamRequest) (s : S) where
    answered-Sent :
        (o : Result SendError UpstreamResponse × S)
        → client.deliver request s ≡ o
        → Sent client request s (answered f p own o)
    unfolding answered relay
    answered-Sent (err e, after) h = unanswered e after h
    answered-Sent (ok resp, after) h = elim (Bool-cases (leb 400 resp.status_code)) [
      | inl bad ↦ rw bad (refused resp after h bad)
      | inr good ↦ rw good (relayed resp after h good)
    ]

    sent-Sent : Sent client request s (sent f p own client request s)
    unfolding sent
    sent-Sent = elim (Bool-cases (client.prepares request.method request.url)) [
      | inl ready ↦ rw ready (answered-Sent (client.deliver request s) refl)
      | inr not_ready ↦ rw not_ready (unprepared _)
    ]

  forward-sent :
      (client : Client S) (r : Request) (url : Url) (s : S)
      → p.client ≡ some client
      → forward f p own r (some url) s ≡ sent f p own client (upstream_request f p own r url) s
  unfolding forward
  forward-sent client r url s there = rw there refl

  -- To an address, through the client.
  pub forward-Sent :
      (client : Client S) (r : Request) (url : Url) (s : S)
      → p.client ≡ some client
      → Sent client (upstream_request f p own r url) s (forward f p own r (some url) s)
  forward-Sent client r url s there =
      rw (forward-sent client r url s there) (sent-Sent client (upstream_request f p own r url) s)
