-- ===== src/Database/Transactions.antt =====
-- db.BeginTx, tx.Commit and the deferred tx.Rollback: a transaction whose body fails leaves the
-- tables as they were, and so does one whose commit fails, unless the server has committed and only
-- its acknowledgement is lost.
use mathlib.Core.Path.{subst}
use trackflow.Prelude.{◌∙◌, sym, Result, ok, err, ◌≡◌, ◌⊎◌, inl, inr, arith, [], refl, ap}
use trackflow.Prelude.Action.{Action, pure}
use trackflow.Text.{Text}
use trackflow.Database.{
  Database, DriverError, Session, execute, behind, no_rows, fault, failed, server, unacknowledged,
}

-- The session behind a commit that reports an error.
uncommitted : Database → DriverError → Session → Session
uncommitted before (fault (unacknowledged what)) s = s
uncommitted before (fault (failed what)) s = record s { database = before }
uncommitted before (fault (server code constraint what)) s = record s { database = before }
uncommitted before no_rows s = record s { database = before }

-- `return tx.Commit()`'s error, or the result.
committed :
    {E A : Type 0}
    → (DriverError → E)
    → Database
    → A
    → Result DriverError (Unit {0}) × Session
    → Result E A × Session
unfolding uncommitted
committed on_commit before a (ok _, s) = (ok a, s)
committed on_commit before a (err e, s) = (err (on_commit e), uncommitted before e s)

-- The end of the body.
finish : {E A : Type 0} → (DriverError → E) → Database → Result E A × Session → Result E A × Session
finish on_commit before (ok a, s) = committed on_commit before a (execute (pure tt) s)
finish on_commit before (err e, s) = (err e, record s { database = before })

begun :
    {E A : Type 0}
    → (DriverError → E)
    → (DriverError → E)
    → Action Session E A
    → Result DriverError (Unit {0}) × Session
    → Result E A × Session
begun on_begin on_commit body (ok _, s) = finish on_commit s.database (body s)
begun on_begin on_commit body (err e, s) = (err (on_begin e), s)

unfoldable pub transaction :
    {E A : Type 0} → (DriverError → E) → (DriverError → E) → Action Session E A → Action Session E A
unfolding begun finish committed uncommitted
transaction on_begin on_commit body s = begun on_begin on_commit body (execute (pure tt) s)

-- A call without effect of its own changes only the faults that lie ahead.
pub execute-pure_database :
    {A : Type 0} (a : A) (s : Session) → (execute (pure a) s).1.database ≡ s.database
unfolding execute
execute-pure_database a s = ground arith

-- A commit that went through without its acknowledgement: the body has returned a result, the next
-- call, which is the commit, meets the loss, and the tables are as the body left them.
pub record IsUnacknowledged {E A : Type 0} (on_commit : DriverError → E) (body : Action Session E A)
    (s : Session) (e : E) (after : Database) : Type 0 where
  pub what : Text
  pub result : A
  pub reported : e ≡ on_commit (fault (unacknowledged what))
  pub went : (body s).0 ≡ ok result
  pub commit_lost : (execute (pure tt) (body s).1).0 ≡ err (fault (unacknowledged what))
  pub tables : after ≡ (body s).1.database

module _ {E A : Type 0} (on_commit : DriverError → E) (body : Action Session E A) where
  committed-err :
      (before : Database) (start t : Session) (a : A) {e : E} (r : Result DriverError (Unit {0}))
      → (body start).0 ≡ ok a
      → t.database ≡ (body start).1.database
      → (execute (pure tt) (body start).1).0 ≡ r
      → (committed on_commit before a (r, t)).0 ≡ err e
      → ((committed on_commit before a (r, t)).1.database ≡ before)
        ⊎ IsUnacknowledged on_commit body start e (committed on_commit before a (r, t)).1.database
  unfolding committed uncommitted
  committed-err before start t a (ok _) went same met h = cc
  committed-err before start t a (err no_rows) went same met h = inl refl
  committed-err before start t a (err (fault (failed what))) went same met h = inl refl
  committed-err before start t a (err (fault (server code constraint what))) went same met h =
      inl refl
  committed-err before start t a {e} (err (fault (unacknowledged what))) went same met h =
      let reported : e ≡ on_commit (fault (unacknowledged what)) = cc in
      inr record {
        what = what;
        result = a;
        reported = reported;
        went = went;
        commit_lost = met;
        tables = same;
      }

  finish-err :
      (before : Database) (start : Session) {e : E} (out : Result E A × Session)
      → body start ≡ out
      → (finish on_commit before out).0 ≡ err e
      → ((finish on_commit before out).1.database ≡ before)
        ⊎ IsUnacknowledged on_commit body start e (finish on_commit before out).1.database
  unfolding finish
  finish-err before start (err e, t) ran h = inl refl
  finish-err before start (ok a, t) ran h =
      let kept : (execute (pure tt) t).1.database ≡ (body start).1.database =
        execute-pure_database tt t ∙ sym (ap (λ o. o.1.database) ran) in
      committed-err before start (execute (pure tt) t).1 a (execute (pure tt) t).0
        (ap (λ o. o.0) ran) kept (ap (λ o. (execute (pure tt) o.1).0) ran) h

  begun-err :
      (on_begin : DriverError → E) (t : Session) {e : E} (r : Result DriverError (Unit {0}))
      → (begun on_begin on_commit body (r, t)).0 ≡ err e
      → ((begun on_begin on_commit body (r, t)).1.database ≡ t.database)
        ⊎ IsUnacknowledged on_commit body t e (begun on_begin on_commit body (r, t)).1.database
  unfolding begun
  begun-err on_begin t (err e) h = inl refl
  begun-err on_begin t (ok _) h = finish-err t.database t (body t) refl h

-- The session behind a call without effect of its own.
execute-pure_session : (s : Session) → (execute (pure tt) s).1 ≡ behind s
unfolding execute
execute-pure_session s = ground arith

-- A transaction that returns an error has changed no table, unless the acknowledgement of its
-- commit was lost.
pub transaction-err :
    {E A : Type 0} (on_begin on_commit : DriverError → E) (body : Action Session E A) (s : Session)
    {e : E}
    → (transaction on_begin on_commit body s).0 ≡ err e
    → ((transaction on_begin on_commit body s).1.database ≡ s.database)
      ⊎ IsUnacknowledged on_commit body
          (behind s)
          e
          (transaction on_begin on_commit body s).1.database
unfolding transaction behind
transaction-err on_begin on_commit body s {e} h =
    let session = execute-pure_session s in
    subst
      (λ t.
        ((transaction on_begin on_commit body s).1.database ≡ t.database)
        ⊎ IsUnacknowledged on_commit body t e (transaction on_begin on_commit body s).1.database)
      session (begun-err on_commit body on_begin (execute (pure tt) s).1 (execute (pure tt) s).0 h)

-- A transaction that returns a result leaves the tables as its body left them.
pub transaction-ok :
    {E A : Type 0} (on_begin on_commit : DriverError → E) (body : Action Session E A) (s : Session)
    {a : A}
    → (transaction on_begin on_commit body s).0 ≡ ok a
    → ((body (behind s)).0 ≡ ok a)
      × ((transaction on_begin on_commit body s).1.database ≡ (body (behind s)).1.database)
unfolding transaction execute
transaction-ok on_begin on_commit body s h = ground arith

-- Without a fault at BeginTx and Commit a transaction returns what its body returns.
pub transaction_calm :
    {E A : Type 0} (on_begin on_commit : DriverError → E) (body : Action Session E A) (s : Session)
    → s.faults ≡ []
    → (body (behind s)).1.faults ≡ []
    → (transaction on_begin on_commit body s).0 ≡ (body (behind s)).0
unfolding transaction execute
transaction_calm on_begin on_commit body s calm later = ground arith
