-- ===== src/Order/Wiring/Outcome.antt =====
-- CreateOrder of the assembled order service: service, cache, repository and tables.
use mathlib.Core.Path.{subst}
use trackflow.Prelude.{
  ◌≡◌, ℤ, Option, Result, some, none, err, ok, refl, sym, ap, arith, ◌∙◌, true, false, Bool, ◌⊎◌,
  inl, inr,
}
use trackflow.Text.{Text}
use trackflow.Database.{Postgres, Database, Session, OrderRow}
use trackflow.Order.Error.{Error, is_duplicate_idempotency}
use trackflow.Order.Model.{Order, CreateOrderInput}
use trackflow.Order.Statements.{find_key}
use trackflow.Order.Service.{Repository, OrderService, cache_order, create_order, checked_key}
use trackflow.Order.Service.Attempt.{
  AfterLookup, known, unreadable, stored, refused, overtaken, lost, Attempt, rejected, looked_up,
  create_order-Attempt,
}
use trackflow.Tracking.Cache.{RedisClient}
use trackflow.Order.Cache.{OrderJson, order_cache, set_order}
use trackflow.Order.Repository.{OrderRepository, repository}
use trackflow.Order.Repository.Creation.{
  IsCreation, IsUnseen, create_order-IsCreation, create_order-err,
}
use trackflow.Order.Repository.Lookup.{
  get_order_by_idempotency_key_same, get_order_by_idempotency_key-ok,
}
use trackflow.Order.Wiring.{wire, repository_on}
use trackflow.Order.Validation.{normalize_create_input}

-- The row of a key, which an order shows.
pub record IsKnown (key : Text) (before : Database) (order : Order) : Type 0 where
  pub row : OrderRow
  pub found : find_key key before.orders ≡ some row
  pub shown : row.id ≡ order.id

-- A creation in the service has stored its order, or found that of its key, or failed; only the
-- first changes a table, and a failure whose commit was not acknowledged.
pub data Outcome {R : Type 0} (pg : Postgres) (raw : CreateOrderInput) (raw_key : Text)
    (before : Database) : Result Error (Order × Bool) × (Session × R) → Type 0 where
  made :
      (input : CreateOrderInput) (key : Text) (order : Order) (s : Session) (x : R)
      → checked_key raw_key ≡ ok key
      → normalize_create_input raw ≡ ok input
      → IsCreation pg input key before order s.database
      → Outcome pg raw raw_key before (ok (order, true), (s, x))
  met :
      (key : Text) (order : Order) (s : Session) (x : R)
      → checked_key raw_key ≡ ok key
      → IsKnown key before order
      → s.database ≡ before
      → Outcome pg raw raw_key before (ok (order, false), (s, x))
  failed :
      (e : Error) (s : Session) (x : R)
      → s.database ≡ before
      → Outcome pg raw raw_key before (err e, (s, x))
  unseen :
      (input : CreateOrderInput) (key : Text) (looked : Session) (e : Error) (s : Session) (x : R)
      → checked_key raw_key ≡ ok key
      → normalize_create_input raw ≡ ok input
      → looked.database ≡ before
      → IsUnseen pg input key looked e s.database
      → Outcome pg raw raw_key before (err e, (s, x))

unseen_single :
    {pg : Postgres} (input : CreateOrderInput) (key : Text) (s : Session) (e : Error)
    (after : Database)
    → IsUnseen pg input key s e after
    → is_duplicate_idempotency e ≡ false
unseen_single input key s e after u = rw (u.reported) refl

module _ {R : Type 0} (json : OrderJson) (pg : Postgres) (r : OrderRepository) where
  abbrev repo : Repository (Session × R)
  repo = repository_on (repository pg r)

  looked_same :
      (key : Text) (st st' : Session × R) {res : Result Error Order}
      → repo.get_order_by_idempotency_key key st ≡ (res, st')
      → st'.0.database ≡ st.0.database
  unfolding repository_on repository
  looked_same key st st' h =
      sym (ap (λ o. o.1.0.database) h) ∙ get_order_by_idempotency_key_same pg r key st.0

  looked-IsKnown :
      (key : Text) (st st' : Session × R) (order : Order)
      → repo.get_order_by_idempotency_key key st ≡ (ok order, st')
      → IsKnown key st.0.database order
  unfolding repository_on repository
  looked-IsKnown key st st' order h =
      let (row, found, shown) =
        get_order_by_idempotency_key-ok pg r key st.0 order (ap (λ o. o.0) h) in
      record { row = row; found = found; shown = shown }

  created-IsCreation :
      (input : CreateOrderInput) (key : Text) (st st' : Session × R) (order : Order)
      → repo.create_order input key st ≡ (ok order, st')
      → IsCreation pg input key st.0.database order st'.0.database
  unfolding repository_on repository
  created-IsCreation input key st st' order h =
      rw (← ap (λ o. o.1.0.database) h)
        (create_order-IsCreation pg input key r st.0 (ap (λ o. o.0) h))

  refused-cases :
      (input : CreateOrderInput) (key : Text) (st st' : Session × R) (e : Error)
      → repo.create_order input key st ≡ (err e, st')
      → (st'.0.database ≡ st.0.database) ⊎ IsUnseen pg input key st.0 e st'.0.database
  unfolding repository_on repository
  refused-cases input key st st' e h =
      rw (← ap (λ o. o.1.0.database) h) (create_order-err pg input key r st.0 (ap (λ o. o.0) h))

  duplicate_same :
      (input : CreateOrderInput) (key : Text) (st st' : Session × R) (e : Error)
      → repo.create_order input key st ≡ (err e, st')
      → is_duplicate_idempotency e ≡ true
      → st'.0.database ≡ st.0.database
  duplicate_same input key st st' e h doubled = elim (refused-cases input key st st' e h) [
    | inl same ↦ same
    | inr u ↦ let single = unseen_single input key st.0 e st'.0.database u in cc
  ]

  wire-repo :
      (redis : Option (RedisClient R)) (ttl : ℤ) → (wire json pg r redis ttl).repo ≡ some repo
  unfolding wire
  wire-repo none ttl = refl
  wire-repo (some client) ttl = refl

  cache_order-session :
      (redis : Option (RedisClient R)) (ttl : ℤ) (o : Order) (st : Session × R)
      → (cache_order (wire json pg r redis ttl) o st).1.0 ≡ st.0
  unfolding cache_order wire order_cache set_order
  cache_order-session none ttl o st = refl
  cache_order-session (some client) ttl o st = ground arith

  module _ (redis : Option (RedisClient R)) (ttl : ℤ) where
    abbrev service : OrderService (Session × R)
    service = wire json pg r redis ttl

    cached_same :
        (o : Order) (st : Session × R) → (cache_order service o st).1.0.database ≡ st.0.database
    cached_same o st = ap (λ s. s.database) (cache_order-session redis ttl o st)

    AfterLookup-Outcome :
        (raw : CreateOrderInput) (raw_key : Text) (input : CreateOrderInput) (key : Text)
        (st : Session × R) {looked : Result Error Order × (Session × R)}
        {o : Result Error (Order × Bool) × (Session × R)}
        → checked_key raw_key ≡ ok key
        → normalize_create_input raw ≡ ok input
        → repo.get_order_by_idempotency_key key st ≡ looked
        → AfterLookup service repo input key looked o
        → Outcome pg raw raw_key st.0.database o
    AfterLookup-Outcome raw raw_key input key st c n h (known order looked) =
        met key order _ _ c (looked-IsKnown key st looked order h)
          (cached_same order looked ∙ looked_same key st looked h)
    AfterLookup-Outcome raw raw_key input key st c n h (unreadable e looked other) =
        failed e _ _ (looked_same key st looked h)
    AfterLookup-Outcome raw raw_key input key st c n h (stored missing looked order after made_it) =
        let before = looked_same key st looked h in
        let creation = created-IsCreation input key looked after order made_it in
        made input key order _ _ c n (rw (cached_same order after) (rw before at creation))
    AfterLookup-Outcome raw raw_key input key st c n h
          (refused missing looked e after refusal other) =
        elim (refused-cases input key looked after e refusal) [
          | inl same ↦ failed e _ _ (same ∙ looked_same key st looked h)
          | inr u ↦ unseen input key looked.0 e _ _ c n (looked_same key st looked h) u
        ]
    AfterLookup-Outcome raw raw_key input key st c n h
          (overtaken missing looked duplicate after order again refusal doubled found) =
        let kept =
          duplicate_same input key looked after duplicate refusal doubled
          ∙ looked_same key st looked h in
        met key order _ _ c
          (subst (λ d. IsKnown key d order) kept (looked-IsKnown key after again order found))
          (cached_same order again ∙ (looked_same key after again found ∙ kept))
    AfterLookup-Outcome raw raw_key input key st c n h
          (lost missing looked duplicate after e again refusal doubled unread) =
        failed e _ _ (
          looked_same key after again unread
          ∙ (duplicate_same input key looked after duplicate refusal doubled
              ∙ looked_same key st looked h))

    Attempt-Outcome :
        (raw : CreateOrderInput) (raw_key : Text) (st : Session × R)
        {o : Result Error (Order × Bool) × (Session × R)}
        → Attempt service repo raw raw_key st o
        → Outcome pg raw raw_key st.0.database o
    Attempt-Outcome raw raw_key st (rejected e) = failed e _ _ refl
    Attempt-Outcome raw raw_key st (looked_up input key checked normalized after) =
        AfterLookup-Outcome raw raw_key input key st checked normalized refl after

    -- What a creation in the assembled service does to the tables.
    pub create_order-Outcome :
        (raw : CreateOrderInput) (raw_key : Text) (st : Session × R)
        → Outcome pg raw raw_key st.0.database (create_order service raw raw_key st)
    create_order-Outcome raw raw_key st =
        Attempt-Outcome raw raw_key st
          (create_order-Attempt service repo (wire-repo redis ttl) raw raw_key st)
