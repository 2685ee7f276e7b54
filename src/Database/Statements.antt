-- ===== src/Database/Statements.antt =====
-- Calls of the driver that succeed.
use trackflow.Prelude.Action.{Action, proceed, wrapping, proceed-ok, wrapping-ok}
use trackflow.Prelude.{ap, ◌∙◌, ok, ◌≡◌, refl, arith}
use trackflow.Database.{DriverError, Statement, Session, execute, behind}

-- A call that succeeds has run its statement.
pub execute-ok :
    {A : Type 0} (statement : Statement A) (s : Session) {a : A}
    → (execute statement s).0 ≡ ok a
    → ((statement (behind s)).0 ≡ ok a) × ((execute statement s).1 ≡ (statement (behind s)).1)
unfolding execute
execute-ok statement s h = ground arith

pub behind_same : (s : Session) → ((behind s).database ≡ s.database) × ((behind s).now ≡ s.now)
unfolding behind
behind_same s = (refl, refl)

-- Inversion of a successful sequence that begins with a call of the driver.
pub call-ok :
    {E A B : Type 0} (w : DriverError → E) (statement : Statement A) (f : A → Action Session E B)
    (s : Session) {b : B}
    → (proceed (wrapping w (execute statement) s) f).0 ≡ ok b
    → (a : A) × ((statement (behind s)).0 ≡ ok a)
      × ((f a (statement (behind s)).1).0 ≡ ok b)
      × ((proceed (wrapping w (execute statement) s) f).1 ≡ (f a (statement (behind s)).1).1)
call-ok w statement f s h =
    let (a, got, rest, end) = proceed-ok (wrapping w (execute statement) s) f h in
    let (ran, left) = execute-ok statement s (wrapping-ok w (execute statement) s got) in
    (a, ran, rw (← left) rest, end ∙ ap (λ t. (f a t).1) left)
