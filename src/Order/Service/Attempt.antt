-- ===== src/Order/Service/Attempt.antt =====
-- Every way through CreateOrder of services/order-service/internal/service/service.go.
use trackflow.Prelude.{
  ◌≡◌, ok, err, Result, some, true, false, Bool, arith, refl, Bool-cases, inl, inr,
}
use trackflow.Prelude.Action.{proceed}
use trackflow.Text.{Text}
use trackflow.Order.Error.{Error, is_order_not_found, is_duplicate_idempotency}
use trackflow.Order.Model.{Order, CreateOrderInput}
use trackflow.Order.Validation.{normalize_create_input}
use trackflow.Order.Service.{
  Repository, OrderService, checked_key, cache_order, answered, found_again, after_creation,
  after_lookup, create_with, create_order, with_repo,
}

module _ {S : Type 0} (svc : OrderService S) (repo : Repository S) where
  -- What follows a lookup of the key.
  pub data AfterLookup (input : CreateOrderInput) (key : Text)
      : Result Error Order × S → Result Error (Order × Bool) × S → Type 0 where
    known :
        (order : Order) (looked : S)
        → AfterLookup input key
            (ok order, looked)
            (ok (order, false), (cache_order svc order looked).1)
    unreadable :
        (e : Error) (looked : S)
        → is_order_not_found e ≡ false
        → AfterLookup input key (err e, looked) (err e, looked)
    stored :
        (missing : Error) (looked : S) (order : Order) (made : S)
        → repo.create_order input key looked ≡ (ok order, made)
        → AfterLookup input key
            (err missing, looked)
            (ok (order, true), (cache_order svc order made).1)
    refused :
        (missing : Error) (looked : S) (e : Error) (made : S)
        → repo.create_order input key looked ≡ (err e, made)
        → is_duplicate_idempotency e ≡ false
        → AfterLookup input key (err missing, looked) (err e, made)
    overtaken :
        (missing : Error) (looked : S) (duplicate : Error) (made : S) (order : Order) (again : S)
        → repo.create_order input key looked ≡ (err duplicate, made)
        → is_duplicate_idempotency duplicate ≡ true
        → repo.get_order_by_idempotency_key key made ≡ (ok order, again)
        → AfterLookup input key
            (err missing, looked)
            (ok (order, false), (cache_order svc order again).1)
    lost :
        (missing : Error) (looked : S) (duplicate : Error) (made : S) (e : Error) (again : S)
        → repo.create_order input key looked ≡ (err duplicate, made)
        → is_duplicate_idempotency duplicate ≡ true
        → repo.get_order_by_idempotency_key key made ≡ (err e, again)
        → AfterLookup input key (err missing, looked) (err e, again)

  -- A creation: refused by the checks, or one that has looked its key up.
  pub data Attempt (raw : CreateOrderInput) (raw_key : Text) (st : S)
      : Result Error (Order × Bool) × S → Type 0 where
    rejected : (e : Error) → Attempt raw raw_key st (err e, st)
    looked_up :
        (input : CreateOrderInput) (key : Text) {o : Result Error (Order × Bool) × S}
        → checked_key raw_key ≡ ok key
        → normalize_create_input raw ≡ ok input
        → AfterLookup input key (repo.get_order_by_idempotency_key key st) o
        → Attempt raw raw_key st o

  answered-cached :
      (created : Bool) (o : Order) (st : S)
      → answered svc created o st ≡ (ok (o, created), (cache_order svc o st).1)
  unfolding answered cache_order
  answered-cached created o st = ground arith

  found_again-AfterLookup :
      (input : CreateOrderInput) (key : Text) (missing : Error) (looked : S) (duplicate : Error)
      (made : S)
      → repo.create_order input key looked ≡ (err duplicate, made)
      → is_duplicate_idempotency duplicate ≡ true
      → (r : Result Error Order × S) → repo.get_order_by_idempotency_key key made ≡ r
      → AfterLookup input key (err missing, looked) (proceed r (answered svc false))
  found_again-AfterLookup input key missing looked duplicate made met doubled (ok order, again)
        found =
      rw (answered-cached false order again)
        (overtaken missing looked duplicate made order again met doubled found)
  found_again-AfterLookup input key missing looked duplicate made met doubled (err e, again)
        failed =
      lost missing looked duplicate made e again met doubled failed

  after_creation-AfterLookup :
      (input : CreateOrderInput) (key : Text) (missing : Error) (looked : S)
      (r : Result Error Order × S)
      → repo.create_order input key looked ≡ r
      → AfterLookup input key (err missing, looked) (after_creation svc repo key r)
  unfolding after_creation found_again
  after_creation-AfterLookup input key missing looked (ok order, made) h =
      rw (answered-cached true order made) (stored missing looked order made h)
  after_creation-AfterLookup input key missing looked (err e, made) h =
      elim (Bool-cases (is_duplicate_idempotency e)) [
        | inl met ↦ rw met (found_again-AfterLookup input key missing looked e made h met _ refl)
        | inr other ↦ rw other (refused missing looked e made h other)
      ]

  after_lookup-AfterLookup :
      (input : CreateOrderInput) (key : Text) (r : Result Error Order × S)
      → AfterLookup input key r (after_lookup svc repo input key r)
  unfolding after_lookup
  after_lookup-AfterLookup input key (ok order, looked) =
      rw (answered-cached false order looked) (known order looked)
  after_lookup-AfterLookup input key (err e, looked) = elim (Bool-cases (is_order_not_found e)) [
    | inl missing ↦ rw missing (after_creation-AfterLookup input key e looked _ refl)
    | inr other ↦ rw other (unreadable e looked other)
  ]

  create_with-Attempt :
      (raw : CreateOrderInput) (raw_key : Text) (st : S) (checked : Result Error Text)
      (normalized : Result Error CreateOrderInput)
      → checked_key raw_key ≡ checked
      → normalize_create_input raw ≡ normalized
      → Attempt raw raw_key st (create_with svc repo raw raw_key st)
  unfolding create_with
  create_with-Attempt raw raw_key st (err e) normalized h k = rw h (rejected e)
  create_with-Attempt raw raw_key st (ok key) (err e) h k = rw (h, k) (rejected e)
  create_with-Attempt raw raw_key st (ok key) (ok input) h k =
      rw (h, k) (looked_up input key h k (after_lookup-AfterLookup input key _))

  create_order-create_with :
      svc.repo ≡ some repo
      → (raw : CreateOrderInput) (raw_key : Text) (st : S)
      → create_order svc raw raw_key st ≡ create_with svc repo raw raw_key st
  unfolding create_order with_repo
  create_order-create_with there raw raw_key st = rw there

  -- Every creation, over a repository and a cache of any behaviour.
  pub create_order-Attempt :
      svc.repo ≡ some repo
      → (raw : CreateOrderInput) (raw_key : Text) (st : S)
      → Attempt raw raw_key st (create_order svc raw raw_key st)
  create_order-Attempt there raw raw_key st =
      rw (create_order-create_with there raw raw_key st)
        (create_with-Attempt raw raw_key st _ _ refl refl)
