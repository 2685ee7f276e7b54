-- ===== src/Order/Service/Creating.antt =====
-- CreateOrder of services/order-service/internal/service/service.go, over a repository that keeps
-- keys.
use mathlib.Core.Path.{subst}
use trackflow.Prelude.{
  ◌≡◌, ok, err, Result, some, Option, true, false, Bool, arith, refl, Bool-cases, Option-cases, inl,
  inr,
}
use trackflow.Prelude.Action.{Action, proceed, lift}
use trackflow.Text.{Text}
use trackflow.Order.Error.{Error, is_order_not_found, is_duplicate_idempotency}
use trackflow.Order.Model.{Order, CreateOrderInput}
use trackflow.Order.Validation.{normalize_create_input}
use trackflow.Order.Service.{
  Repository, OrderCache, OrderService, checked_key, cache_order, answered, found_again,
  after_creation, after_lookup, create_with, create_order, with_repo,
}

-- What a repository and a cache promise of the relation "in this state the key names the order of
-- this id": lookups and creations answer with the order named, and nothing makes a key name
-- another.
pub record KeepsKeys {S : Type 0} (repo : Repository S) (cache : Option (OrderCache S))
    (N : Text → Text → S → Type 0) : Type 0 where
  pub looked_up :
      (key : Text) (st : S) (o : Order)
      → (repo.get_order_by_idempotency_key key st).0 ≡ ok o
      → N key o.id (repo.get_order_by_idempotency_key key st).1
  pub made :
      (input : CreateOrderInput) (key : Text) (st : S) (o : Order)
      → (repo.create_order input key st).0 ≡ ok o
      → N key o.id (repo.create_order input key st).1
  pub same_found :
      (key id : Text) (st : S) (o : Order)
      → N key id st
      → (repo.get_order_by_idempotency_key key st).0 ≡ ok o
      → o.id ≡ id
  pub is_found :
      (key id : Text) (st : S) (e : Error)
      → N key id st
      → (repo.get_order_by_idempotency_key key st).0 ≡ err e
      → is_order_not_found e ≡ false
  pub still :
      (key id : Text) (c : OrderCache S) (o : Order) (ttl : _) (st : S)
      → cache ≡ some c
      → N key id st
      → N key id (c.set_order o ttl st).1

-- If the request succeeds, its order, mark and state are in `P`.
abbrev pub Answers :
    {S : Type 0} → (Order → Bool → S → Type 0) → Result Error (Order × Bool) × S → Type 0
Answers P (ok (o, created), st) = P o created st
Answers P (err e, st) = Unit

pub Answers-ok :
    {S : Type 0} (P : Order → Bool → S → Type 0) (out : Result Error (Order × Bool) × S) {o : Order}
    {created : Bool}
    → Answers P out
    → out.0 ≡ ok (o, created)
    → P o created out.1
Answers-ok P (ok (o', created'), st) {o} {created} p h =
    let same : ◌≡◌ {A = Order × Bool} (o', created') (o, created) = cc in
    subst (λ x. P x.0 x.1 st) same p
Answers-ok P (err e, st) p h = cc

proceed-Answers :
    {S A : Type 0} (P : Order → Bool → S → Type 0) (r : Result Error A × S)
    (f : A → Action S Error (Order × Bool))
    → ((a : A) → r.0 ≡ ok a → Answers P (f a r.1))
    → Answers P (proceed r f)
proceed-Answers P (ok a, st) f h = h a refl
proceed-Answers P (err e, st) f h = tt

module _ {S : Type 0} (svc : OrderService S) (repo : Repository S) (N : Text → Text → S → Type 0)
    (laws : KeepsKeys repo svc.cache N) where
  cache_order_still :
      (key id : Text) (o : Order) (st : S) → N key id st → N key id (cache_order svc o st).1
  unfolding cache_order
  cache_order_still key id o st n = elim (Option-cases svc.cache) [
    | inl missing ↦ rw (missing, cache_order) n
    | inr (c, there) ↦ rw (there, cache_order) (laws.still key id c o svc.cache_ttl st there n)
  ]

  answered_lem :
      (created : Bool) (o : Order) (st : S)
      → answered svc created o st ≡ (ok (o, created), (cache_order svc o st).1)
  unfolding answered cache_order
  answered_lem created o st = ground arith

  -- The order of the answer carries the key.
  abbrev Named : Text → Order → Bool → S → Type 0
  Named key o created st = N key o.id st

  -- The answer is the known order of the key.
  abbrev Known : Text → Text → Order → Bool → S → Type 0
  Known key id o created st = (o.id ≡ id) × (created ≡ false) × N key id st

  answered-Named :
      (key : Text) (created : Bool) (o : Order) (st : S)
      → N key o.id st
      → Answers (Named key) (answered svc created o st)
  answered-Named key created o st n =
      rw (answered_lem created o st) (cache_order_still key o.id o st n)

  found_again-Named : (key : Text) (st : S) → Answers (Named key) (found_again svc repo key st)
  unfolding found_again
  found_again-Named key st =
      proceed-Answers (Named key) (repo.get_order_by_idempotency_key key st) (answered svc false)
        λ o h. answered-Named key false o _ (laws.looked_up key st o h)

  after_creation-Named :
      (key : Text) (r : Result Error Order × S)
      → ((o : Order) → r.0 ≡ ok o → N key o.id r.1)
      → Answers (Named key) (after_creation svc repo key r)
  unfolding after_creation
  after_creation-Named key (ok o, st) h = answered-Named key true o st (h o refl)
  after_creation-Named key (err e, st) h = elim (Bool-cases (is_duplicate_idempotency e)) [
    | inl met ↦ rw met (found_again-Named key st)
    | inr other ↦ rw other tt
  ]

  after_lookup-Named :
      (input : CreateOrderInput) (key : Text) (r : Result Error Order × S)
      → ((o : Order) → r.0 ≡ ok o → N key o.id r.1)
      → Answers (Named key) (after_lookup svc repo input key r)
  unfolding after_lookup
  after_lookup-Named input key (ok o, st) h = answered-Named key false o st (h o refl)
  after_lookup-Named input key (err e, st) h = elim (Bool-cases (is_order_not_found e)) [
    | inl missing ↦
        rw missing
          (after_creation-Named key (repo.create_order input key st) (laws.made input key st))
    | inr other ↦ rw other tt
  ]

  after_lookup-Known :
      (input : CreateOrderInput) (key id : Text) (r : Result Error Order × S)
      → ((o : Order) → r.0 ≡ ok o → (o.id ≡ id) × N key o.id r.1)
      → ((e : Error) → r.0 ≡ err e → is_order_not_found e ≡ false)
      → Answers (Known key id) (after_lookup svc repo input key r)
  unfolding after_lookup
  after_lookup-Known input key id (ok o, st) h others = rw (answered_lem false o st) (
    (h o refl).0,
    refl,
    cache_order_still key id o st (subst (λ x. N key x st) (h o refl).0 (h o refl).1),
  )
  after_lookup-Known input key id (err e, st) h others = rw (others e refl) tt

  module _ (repo_there : svc.repo ≡ some repo) (input : CreateOrderInput) (raw_key key : Text)
      (checked : checked_key raw_key ≡ ok key) (st : S) where
    create_order_lem : create_order svc input raw_key st ≡ create_with svc repo input raw_key st
    unfolding create_order with_repo
    create_order_lem = rw repo_there

    create_with_lem :
        create_with svc repo input raw_key st
        ≡ proceed (lift (normalize_create_input input) st) λ normalized_input st.
          after_lookup svc repo normalized_input key (repo.get_order_by_idempotency_key key st)
    unfolding create_with
    create_with_lem = rw checked

    -- A request that succeeds returns an order that its key names from then on.
    pub create_order-Named : Answers (Named key) (create_order svc input raw_key st)
    create_order-Named =
        rw (create_order_lem, create_with_lem)
          (proceed-Answers (Named key) (lift (normalize_create_input input) st) _
            λ normalized_input h. after_lookup-Named normalized_input key _ (laws.looked_up key st))

    -- A request whose key names an order already creates none: if it succeeds, it returns that
    -- order, not marked as created.
    pub create_order-Known :
        (id : Text) → N key id st → Answers (Known key id) (create_order svc input raw_key st)
    create_order-Known id n =
        rw (create_order_lem, create_with_lem)
          (proceed-Answers (Known key id) (lift (normalize_create_input input) st) _
            λ normalized_input h.
              after_lookup-Known normalized_input key id _
                (λ o found. (laws.same_found key id st o n found, laws.looked_up key st o found))
                (λ e failed. laws.is_found key id st e n failed))
