-- ===== src/Tracking/Wiring/Endpoint.antt =====
-- POST …/status through the whole tracking service: handler, service, repository and tables.
use trackflow.Prelude.{
  ◌≡◌, ◌≤◌, ℤ, Option, Result, some, err, refl, ok, sym, ap, arith, ◌∙◌, none, inl, inr,
}
use trackflow.Text.{Text, trim_space}
use trackflow.Database.{Postgres, Session, Database}
use trackflow.Tracking.Model.{StatusHistoryItem, UpdateStatusInput}
use trackflow.Tracking.Service.{
  TrackingService, Notifier, checked_id, checked_status, checked_source,
}
use trackflow.Tracking.Service as Service
use trackflow.Tracking.Service.Update.{
  announced, Attempt, rejected, failed, done, update_order_status-Attempt,
}
use trackflow.Tracking.Repository.{TrackingRepository, repository, update_order_status}
use trackflow.Tracking.Handler.{update_failure}
use trackflow.Tracking.Repository.Journal.{
  IsMove, update_order_status-IsMove, update_order_status-err, IsUnseen,
}
use trackflow.Tracking.Handler.{
  Request, Response, handle_update_order_status, decode_body, extract_order_id,
}
use trackflow.Tracking.Handler.Statuses.{
  updated, update_failure_status, Reply, handle_update_order_status-Reply,
}
use trackflow.Tracking.Wiring.{wire, repository_on}
use trackflow.Tracking.Cache.{TimelineJson, RedisClient, timeline_cache, order_cache_invalidator}
use trackflow.Tracking.Error.{Error}

-- A request as the checks of the service read it: the trimmed id of its path, and the status and
-- the source of its body in their normal forms.
pub record IsRead (req : Request) (id status source : Text) : Type 0 where
  pub input : UpdateStatusInput
  pub decoded : decode_body req.body ≡ some input
  pub id_checked : checked_id (extract_order_id req) ≡ ok id
  pub status_checked : checked_status input.status ≡ ok status
  pub source_checked : checked_source input.source ≡ ok source

-- An answer to a status request, and the tables behind it: 200 and the move that the request asks
-- for, whose new row is shown in the answer; or a failure and the tables as they were; or a failure
-- that passes on the loss of the commit's acknowledgement, and that move.
pub data Answered (pg : Postgres) (req : Request) (before : Session)
    : Response → Database → Type 0 where
  moved_on :
      (id status source : Text) (item : StatusHistoryItem) (after : Database)
      (r : IsRead req id status source)
      → IsMove pg id status source
          (trim_space r.input.comment)
          r.input.metadata
          before.database
          before.now
          before.drawn
          item
          after
      → Answered pg req before (updated item) after
  unseen_move :
      (id status source : Text) (e : Error) (after : Database) (r : IsRead req id status source)
      → IsUnseen pg id status source (trim_space r.input.comment) r.input.metadata before e after
      → Answered pg req before (update_failure e) after
  unmoved :
      (response : Response) (after : Database)
      → 400 ≤ response.status
      → after ≡ before.database
      → Answered pg req before response after

module _ {R : Type 0} (pg : Postgres) (r' : TrackingRepository) (notifier : Notifier R)
    (json : TimelineJson) (ttl : ℤ) where
  announced-session :
      (redis : Option (RedisClient R)) (id : Text) (item : StatusHistoryItem) (st : Session × R)
      → (announced (wire pg r' notifier json ttl redis) id item st).0 ≡ st.0
  unfolding wire timeline_cache order_cache_invalidator
  announced-session none id item st = refl
  announced-session (some client) id item st = ground arith

  wire-repo :
      (redis : Option (RedisClient R))
      → (wire pg r' notifier json ttl redis).repo ≡ some (repository_on (repository pg r'))
  unfolding wire
  wire-repo none = refl
  wire-repo (some client) = refl

  module _ (redis : Option (RedisClient R)) (req : Request) (s : Session) (x : R) where
    abbrev service : TrackingService (Session × R)
    service = wire pg r' notifier json ttl redis

    abbrev read_as :
        (input : UpdateStatusInput) (id status source : Text)
        → decode_body req.body ≡ some input
        → checked_id (extract_order_id req) ≡ ok id
        → checked_status input.status ≡ ok status
        → checked_source input.source ≡ ok source
        → IsRead req id status source
    read_as input id status source read hi hs hc = record {
      input = input;
      decoded = read;
      id_checked = hi;
      status_checked = hs;
      source_checked = hc;
    }

    refused-Answered :
        (id status source : Text) (r : IsRead req id status source) (e : Error) (st' : Session × R)
        → (repository_on (repository pg r')).update_order_status id status source
            (trim_space r.input.comment)
            r.input.metadata
            (s, x)
          ≡ (err e, st')
        → Answered pg req s (update_failure e) st'.0.database
    unfolding repository_on repository
    refused-Answered id status source r e st' kept =
        let tables = ap (λ o. o.1.0.database) kept in
        elim (update_order_status-err pg id status source (trim_space r.input.comment)
          r.input.metadata r' s (ap (λ o. o.0) kept)) [
            | inl same ↦
                unmoved (update_failure e) st'.0.database (update_failure_status e)
                  (sym tables ∙ same)
            | inr u ↦ unseen_move id status source e st'.0.database r (rw (← tables) u)
          ]

    Attempt-failed :
        (input : UpdateStatusInput) {o : Result Error StatusHistoryItem × (Session × R)}
        → decode_body req.body ≡ some input
        → Attempt service (repository_on (repository pg r')) (extract_order_id req) input (s, x) o
        → {e : Error} {st : Session × R} → o ≡ (err e, st)
        → Answered pg req s (update_failure e) st.0.database
    Attempt-failed input read (rejected e' invalid) {e} {st} h =
        unmoved (update_failure e) st.0.database (update_failure_status e)
          (sym (ap (λ o. o.1.0.database) h))
    Attempt-failed input read (failed id status source e' st' hi hs hc kept) {e} {st} h =
        refused-Answered id status source (read_as input id status source read hi hs hc) e st
          (kept ∙ h)
    Attempt-failed input read (done id status source item st' hi hs hc kept) h = cc

    Attempt-stored :
        (input : UpdateStatusInput) {o : Result Error StatusHistoryItem × (Session × R)}
        → decode_body req.body ≡ some input
        → Attempt service (repository_on (repository pg r')) (extract_order_id req) input (s, x) o
        → {item : StatusHistoryItem} {st : Session × R} → o ≡ (ok item, st)
        → Answered pg req s (updated item) st.0.database
    unfolding repository_on repository
    Attempt-stored input read (rejected e invalid) h = cc
    Attempt-stored input read (failed id status source e st' hi hs hc kept) h = cc
    Attempt-stored input read (done id status source item st' hi hs hc kept) {item = item'} {st} h =
        let comment = trim_space input.comment in
        let move =
          update_order_status-IsMove pg id status source comment input.metadata r' s
            (ap (λ o. o.0) kept) in
        let same : item ≡ item' = cc in
        let tables : st.0.database
            ≡ (update_order_status pg r' id status source comment input.metadata s).1.database =
          sym (ap (λ o. o.1.0.database) h)
          ∙ (ap (λ t. t.database) (announced-session redis id item st')
              ∙ sym (ap (λ o. o.1.0.database) kept)) in
        rw (← same, tables)
          (moved_on id status source item _ (read_as input id status source read hi hs hc) move)

    attempt :
        (input : UpdateStatusInput)
        → Attempt service
            (repository_on (repository pg r'))
            (extract_order_id req)
            input
            (s, x)
            (Service.update_order_status service (extract_order_id req) input (s, x))
    attempt input =
        update_order_status-Attempt service (repository_on (repository pg r'))
          (extract_order_id req) input (s, x) (wire-repo redis)

    Reply-Answered :
        {o : Response × (Session × R)}
        → Reply service req (s, x) o
        → Answered pg req s o.0 o.1.0.database
    Reply-Answered (Reply.refused response bad) = unmoved response s.database bad refl
    Reply-Answered (Reply.failed input e st' read h) = Attempt-failed input read (attempt input) h
    Reply-Answered (Reply.stored input item st' read h) =
        Attempt-stored input read (attempt input) h

    -- A status request to the assembled service, whatever it holds and whatever fails on the way,
    -- either answers 200 and has made exactly one legal move, of the order in its path to the
    -- status in its body, whose history row is the one that the answer shows; or answers 400 or
    -- more and has changed no table; or answers with the failure that passes on a commit without
    -- acknowledgement, which the commit itself met, and has made that move.
    pub handle_update_order_status-Answered :
        let (response, (after, rest)) = handle_update_order_status (some service) req (s, x) in
        Answered pg req s response after.database
    handle_update_order_status-Answered =
        Reply-Answered (handle_update_order_status-Reply service req (s, x))
