-- ===== src/System/Passage.antt =====
-- A request that the gateway forwards to a service, through a network that may lose the request or
-- its answer.
pub mod Creation
pub mod Moving
use trackflow.Prelude.{
  ◌≡◌, ℕ, Bool, true, false, Option, none, some, Result, ok, err, leb, refl, Bool-cases, inl, inr,
  ◌≢◌, arith, ap,
}
use trackflow.Prelude.Action.{Action}
use trackflow.Text.{Text}
use trackflow.Http.{Header}
use trackflow.Gateway.Error.{HttpError}
use trackflow.Gateway.Headers.{copy_headers}
use trackflow.Gateway.Upstream.{Url, UpstreamResponse, Formats, upstream_failure, build_target_url}
use trackflow.Gateway.Validation.{Request}
use trackflow.Gateway.Proxy.{
  GatewayProxy, Client, UpstreamRequest, SendError, Answer, forward, send_failure,
  default_upstream_timeout, upstream_header, upstream_request,
}
use trackflow.Gateway.Proxy.Sending as Sending
use trackflow.Gateway.Proxy.Sending.{Sent, relayed_answer, forward-Sent}

pub data Fate : Type 0 where
  arrives : Fate
  request_lost : Fate
  answer_lost : Fate

-- What becomes of each request, and what the client says of one that was lost.
pub record Network : Type 0 where
  pub prepares : Text → Url → Bool
  pub fate : UpstreamRequest → Fate
  pub loss : SendError

abbrev pub Server : Type 0 → Type 0
Server S = UpstreamRequest → S → UpstreamResponse × S

module _ {S : Type 0} (net : Network) (serve : Server S) where
  carried : Fate → UpstreamRequest → Action S SendError UpstreamResponse
  carried arrives request s = let (response, after) = serve request s in (ok response, after)
  carried request_lost request s = (err net.loss, s)
  carried answer_lost request s = (err net.loss, (serve request s).1)

  -- The client of a service behind the network.
  unfoldable pub remote : Client S
  unfolding carried
  remote = record {
    prepares = net.prepares;
    deliver = λ request. carried (net.fate request) request;
  }

  -- The ways in which a request is forwarded.
  pub data Passage (f : Formats) (own : Header) (request : UpstreamRequest) (s : S)
      : Result HttpError Answer × S → Type 0 where
    unsent : (e : HttpError) → Passage f own request s (err e, s)
    relayed :
        (resp : UpstreamResponse) (after : S)
        → serve request s ≡ (resp, after)
        → leb 400 resp.status_code ≡ false
        → Passage f own request s (ok (relayed_answer own resp), after)
    failed :
        (resp : UpstreamResponse) (after : S)
        → serve request s ≡ (resp, after)
        → leb 400 resp.status_code ≡ true
        → Passage f own request s (err (upstream_failure f resp), after)
    unheard :
        (e : HttpError)
        → net.fate request ≡ answer_lost
        → Passage f own request s (err e, (serve request s).1)

module _ {S : Type 0} (net : Network) (serve : Server S) (f : Formats) (p : GatewayProxy S)
    (own : Header) where
  carried-lost :
      (request : UpstreamRequest) (s after : S) (loss : SendError) (e : HttpError) (fate : Fate)
      → net.fate request ≡ fate
      → carried net serve fate request s ≡ (err loss, after)
      → Passage net serve f own request s (err e, after)
  unfolding carried
  carried-lost request s after loss e arrives known h = cc
  carried-lost request s after loss e request_lost known h = rw (← ap (λ o. o.1) h) (unsent e)
  carried-lost request s after loss e answer_lost known h = rw (← ap (λ o. o.1) h) (unheard e known)

  carried-served :
      (request : UpstreamRequest) (s after : S) (resp : UpstreamResponse) (fate : Fate)
      → carried net serve fate request s ≡ (ok resp, after)
      → serve request s ≡ (resp, after)
  unfolding carried
  carried-served request s after resp arrives h = ground (arith)
  carried-served request s after resp request_lost h = cc
  carried-served request s after resp answer_lost h = cc

  carried-Passage :
      (request : UpstreamRequest) (s : S) {o : Result HttpError Answer × S}
      → Sent f p own (remote net serve) request s o
      → Passage net serve f own request s o
  unfolding remote
  carried-Passage request s (Sending.unprepared e) = unsent e
  carried-Passage request s (Sending.unanswered e after h) =
      carried-lost request s after e (send_failure e) (net.fate request) refl h
  carried-Passage request s (Sending.refused resp after h bad) =
      failed resp after (carried-served request s after resp (net.fate request) h) bad
  carried-Passage request s (Sending.relayed resp after h good) =
      relayed resp after (carried-served request s after resp (net.fate request) h) good

  -- Whatever the network does, a request that is forwarded goes one of these ways.
  pub forward-Passage :
      (r : Request) (url : Url) (s : S)
      → p.client ≡ some (remote net serve)
      → Passage net serve f own (upstream_request f p own r url) s (forward f p own r (some url) s)
  forward-Passage r url s behind =
      carried-Passage (upstream_request f p own r url) s
        (forward-Sent f p own (remote net serve) r url s behind)
