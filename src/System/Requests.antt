-- ===== src/System/Requests.antt =====
-- Requests to order-service while other instances, and tracking-service, write the same database:
-- before each call of a request's repository, any calls of the others may run. `R` is the state of
-- the cache.
use trackflow.Prelude.{
  ℤ, ◌≡◌, [], ◌∷◌, List, ok, err, some, none, Option, arith, refl, sym, ap, Bool, false,
}
use mathlib.Core.Option
use trackflow.Prelude.Action.{Action}
use trackflow.Text.{Text}
use trackflow.Text.Laws.{text_eq_iff}
use trackflow.Database.{Postgres, Database, Session}
use trackflow.Tracking.Repository.{TrackingRepository}
use trackflow.Order.Error.{Error, is_order_not_found}
use trackflow.Order.Model.{Order, CreateOrderInput}
use trackflow.Order.Service.{Repository, OrderCache, OrderService, create_order, checked_key}
use trackflow.Order.Service.Creating.{KeepsKeys, create_order-Named, create_order-Known, Answers-ok}
use trackflow.Order.Repository.{OrderRepository, repository, scan_order}
use trackflow.Order.Repository.Creation.{IsCreation, create_order-IsCreation}
use trackflow.Order.Repository.Lookup.{
  get_order_by_idempotency_key_same, get_order_by_idempotency_key-ok,
  get_order_by_idempotency_key-err,
}
use trackflow.System.{Call, perform_all}
use trackflow.System.Keys.{Names, perform_all-Names, find_key-append}

-- `rivals` lists, call by call, what the others do before it.
pub record World (R : Type 0) : Type 0 where
  pub rivals : List (List Call)
  pub session : Session
  pub cache : R

IsCreation-Names :
    (pg : Postgres) (input : CreateOrderInput) (key : Text) (before after : Database) (o : Order)
    → IsCreation pg input key before o after
    → Names key o.id after
unfolding scan_order
IsCreation-Names pg input key before after o c = (
  c.row,
  ground (
    arith,
    find_key-append key before.orders c.row,
    c.fresh,
    c.changed,
    c.keyed,
    text_eq_iff c.row.idempotency_key key,
  ),
  ap (λ x. x.id) (sym c.returned),
)

rest : List (List Call) → List (List Call)
rest [] = []
rest (calls ∷ rivals) = rivals

module _ (pg : Postgres) (orders : OrderRepository) (tracking : TrackingRepository) where
  overtake : List (List Call) → Session → Session
  overtake [] s = s
  overtake (calls ∷ rivals) s = perform_all pg orders tracking calls s

  overtake-Names :
      (key id : Text) (rivals : List (List Call)) (s : Session)
      → Names key id s.database
      → Names key id (overtake rivals s).database
  unfolding overtake
  overtake-Names key id [] s named = named
  overtake-Names key id (calls ∷ rivals) s named =
      perform_all-Names pg orders tracking calls s key id named

module _ {R : Type 0} (pg : Postgres) (orders : OrderRepository)
    (tracking : TrackingRepository) where
  -- The world in which the next call of the request runs.
  unfoldable pub overtaken : World R → World R
  unfolding overtake rest
  overtaken w = record w {
    rivals = rest w.rivals;
    session = overtake pg orders tracking w.rivals w.session;
  }

  unfoldable pub on_session : {A : Type 0} → Action Session Error A → Action (World R) Error A
  on_session m w =
      let (result, session) = m (overtaken w).session in
      (result, record (overtaken w) { session = session })

  unfoldable pub on_cache : {A : Type 0} → Action R Error A → Action (World R) Error A
  on_cache m w = let (result, cache) = m w.cache in (result, record w { cache = cache })

  -- The repository of a request, and its cache.
  unfoldable pub contended : Repository (World R)
  unfolding on_session overtaken
  contended =
      let repo = repository pg orders in
      record {
        ping = on_session repo.ping;
        list_orders = λ limit. on_session (repo.list_orders limit);
        get_order_by_id = λ id. on_session (repo.get_order_by_id id);
        assign_order = λ id input. on_session (repo.assign_order id input);
        create_order = λ input key. on_session (repo.create_order input key);
        get_order_by_idempotency_key = λ key. on_session (repo.get_order_by_idempotency_key key);
      }

  unfoldable pub shared_cache : OrderCache R → OrderCache (World R)
  unfolding on_cache
  shared_cache c = record {
    get_order_by_id = λ id. on_cache (c.get_order_by_id id);
    set_order = λ order ttl. on_cache (c.set_order order ttl);
  }

  unfoldable pub service : Option (OrderCache R) → ℤ → OrderService (World R)
  service cache ttl = record {
    repo = some contended;
    cache = Option.map shared_cache cache;
    cache_ttl = ttl;
  }

  abbrev InWorld : Text → Text → World R → Type 0
  InWorld key id w = Names key id w.session.database

  overtaken-Names : (key id : Text) (w : World R) → InWorld key id w → InWorld key id (overtaken w)
  unfolding overtaken
  overtaken-Names key id w named = overtake-Names pg orders tracking key id w.rivals w.session named

  looked_up :
      (key : Text) (w : World R) (o : Order)
      → (contended.get_order_by_idempotency_key key w).0 ≡ ok o
      → InWorld key o.id (contended.get_order_by_idempotency_key key w).1
  unfolding contended on_session repository
  looked_up key w o h =
      let s = (overtaken w).session in
      let (row, found, at) = get_order_by_idempotency_key-ok pg orders key s o h in
      (row, rw (get_order_by_idempotency_key_same pg orders key s) found, at)

  made :
      (input : CreateOrderInput) (key : Text) (w : World R) (o : Order)
      → (contended.create_order input key w).0 ≡ ok o
      → InWorld key o.id (contended.create_order input key w).1
  unfolding contended on_session repository
  made input key w o h =
      let s = (overtaken w).session in
      IsCreation-Names pg input key s.database _ o (create_order-IsCreation pg input key orders s h)

  same_found :
      (key id : Text) (w : World R) (o : Order)
      → InWorld key id w
      → (contended.get_order_by_idempotency_key key w).0 ≡ ok o
      → o.id ≡ id
  unfolding contended on_session repository
  same_found key id w o named h =
      let s = (overtaken w).session in
      let (first, there, first_id) = overtaken-Names key id w named in
      let (row, found, at) = get_order_by_idempotency_key-ok pg orders key s o h in cc

  is_found :
      (key id : Text) (w : World R) (e : Error)
      → InWorld key id w
      → (contended.get_order_by_idempotency_key key w).0 ≡ err e
      → is_order_not_found e ≡ false
  unfolding contended on_session repository
  is_found key id w e named h =
      let (first, there, first_id) = overtaken-Names key id w named in
      get_order_by_idempotency_key-err pg orders key (overtaken w).session e first there h

  still :
      (cache : Option (OrderCache R)) (key id : Text) (c : OrderCache (World R)) (o : Order)
      (ttl : ℤ) (w : World R)
      → Option.map shared_cache cache ≡ some c
      → InWorld key id w
      → InWorld key id (c.set_order o ttl w).1
  unfolding shared_cache on_cache
  still none key id c o ttl w there named = cc
  still (some cache) key id c o ttl w there named =
      let same_cache : shared_cache cache ≡ c = cc in rw (← same_cache) named

  contended-KeepsKeys :
      (cache : Option (OrderCache R)) → KeepsKeys contended (Option.map shared_cache cache) InWorld
  contended-KeepsKeys cache = record {
    looked_up = looked_up;
    made = made;
    same_found = same_found;
    is_found = is_found;
    still = still cache;
  }

  -- Two requests with one key, of any instances, with any calls of the services before, between
  -- and inside them: if both succeed, they return one order, and the second does not mark it as
  -- created.
  pub create_order_again :
      (cache cache' : Option (OrderCache R)) (ttl ttl' : ℤ) (input input' : CreateOrderInput)
      (raw_key raw_key' key : Text) (between : List Call) (w w' : World R) {o o' : Order}
      {created created' : Bool}
      → checked_key raw_key ≡ ok key
      → checked_key raw_key' ≡ ok key
      → (create_order (service cache ttl) input raw_key w).0 ≡ ok (o, created)
      → w'.session
        ≡ perform_all pg orders tracking between
            (create_order (service cache ttl) input raw_key w).1.session
      → (create_order (service cache' ttl') input' raw_key' w').0 ≡ ok (o', created')
      → (o'.id ≡ o.id) × (created' ≡ false)
  unfolding service
  create_order_again cache cache' ttl ttl' input input' raw_key raw_key' key between w w' {o} {o'}
        checked checked' first joined second =
      let named =
        Answers-ok (λ o created w. InWorld key o.id w) _
          (create_order-Named (service cache ttl) contended InWorld (contended-KeepsKeys cache) refl
            input raw_key key checked w)
          first in
      let (same_id, not_new, named') =
        Answers-ok (λ x created w. (x.id ≡ o.id) × (created ≡ false) × InWorld key o.id w) _
          (create_order-Known (service cache' ttl') contended InWorld (contended-KeepsKeys cache')
            refl input' raw_key' key checked' w' o.id
            (rw joined (perform_all-Names pg orders tracking between _ key o.id named)))
          second in
      (same_id, not_new)
