-- ===== src/Prelude/Action.antt =====
-- Calls that read and change a state and may fail: Go functions with a result and an error.
use mathlib.Core.Path.{◌≡◌, refl}
use trackflow.Prelude.Results.{Result, ok, err}
use trackflow.Prelude.{arith}

abbrev pub Action : Type 0 → Type 0 → Type 0 → Type 0
Action S E A = S → Result E A × S

abbrev pub pure : {S E A : Type 0} → A → Action S E A
pure a s = (ok a, s)

abbrev pub raise : {S E A : Type 0} → E → Action S E A
raise e s = (err e, s)

-- `if err != nil { return err }`, then the rest.
abbrev pub proceed : {S E A B : Type 0} → Result E A × S → (A → Action S E B) → Result E B × S
proceed (ok a, s) f = f a s
proceed (err e, s) f = (err e, s)

infixl 5 ◌>>=◌ ◌>>◌
abbrev pub ◌>>=◌ : {S E A B : Type 0} → Action S E A → (A → Action S E B) → Action S E B
◌>>=◌ m f s = proceed (m s) f

abbrev pub ◌>>◌ : {S E B : Type 0} → Action S E (Unit {0}) → Action S E B → Action S E B
m >> k = m >>= λ _. k

-- A function that cannot touch the state.
abbrev pub lift : {S E A : Type 0} → Result E A → Action S E A
lift r s = (r, s)

-- A call whose error is logged and dropped.
abbrev pub ignoring : {S E E' : Type 0} → Action S E (Unit {0}) → Action S E' (Unit {0})
ignoring m s = (ok tt, (m s).1)

abbrev wrap_result : {E E' A : Type 0} → (E → E') → Result E A → Result E' A
wrap_result w (ok a) = ok a
wrap_result w (err e) = err (w e)

wrap_result-ok :
    {E E' A : Type 0} (w : E → E') (r : Result E A) {a : A} → wrap_result w r ≡ ok a → r ≡ ok a
wrap_result-ok w (ok a) h = ground arith
wrap_result-ok w (err e) h = cc

-- A call whose error is returned as an error of the caller.
abbrev pub wrapping : {S E E' A : Type 0} → (E → E') → Action S E A → Action S E' A
wrapping w m s = (wrap_result w (m s).0, (m s).1)

-- An action on one part of a state of two.
abbrev pub on_first : {T R E A : Type 0} → Action T E A → Action (T × R) E A
on_first m (t, x) = ((m t).0, ((m t).1, x))

abbrev pub on_second : {T R E A : Type 0} → Action R E A → Action (T × R) E A
on_second m (t, x) = ((m x).0, (t, (m x).1))

-- Inversion of a successful sequence.
pub proceed-ok :
    {S E A B : Type 0} (r : Result E A × S) (f : A → Action S E B) {b : B}
    → (proceed r f).0 ≡ ok b
    → (a : A) × (r.0 ≡ ok a) × ((f a r.1).0 ≡ ok b) × ((proceed r f).1 ≡ (f a r.1).1)
proceed-ok (ok a, s) f h = (a, refl, h, refl)
proceed-ok (err e, s) f h = cc

pub wrapping-ok :
    {S E E' A : Type 0} (w : E → E') (m : Action S E A) (s : S) {a : A}
    → (wrapping w m s).0 ≡ ok a
    → (m s).0 ≡ ok a
wrapping-ok w m s h = wrap_result-ok w (m s).0 h
