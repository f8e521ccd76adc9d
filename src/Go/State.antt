-- ===== src/Go/State.antt =====
-- A call that reads and changes a state: Go's methods on shared objects. An error is a value that
-- comes back with the state as the call left it.
use golinker.Base.{Option, none, some}
use golinker.Errors.{Error, Result, ok, err, panic, diverge}

abbrev pub Call : Type 0 → Type 0 → Type 0
Call S A = S → Result A × S

abbrev pub and_then : {S A B : Type 0} → Result A × S → (A → S → Result B × S) → Result B × S
and_then (ok a, s) f = f a s
and_then (err e, s) f = (err e, s)
and_then (panic, s) f = (panic, s)
and_then (diverge, s) f = (diverge, s)

infixl 5 ◌>>=◌ ◌>>◌
abbrev pub ◌>>=◌ : {S A B : Type 0} → Call S A → (A → Call S B) → Call S B
◌>>=◌ m f s = and_then (m s) f

abbrev pub ◌>>◌ : {S B : Type 0} → Call S (Unit {0}) → Call S B → Call S B
◌>>◌ m k s = and_then (m s) (λ _. k)

abbrev pub return : {S A : Type 0} → A → Call S A
return a s = (ok a, s)

abbrev pub fail : {S A : Type 0} → Error → Call S A
fail e s = (err e, s)

abbrev pub fault : {S A : Type 0} → Call S A
fault s = (panic, s)

abbrev pub lift : {S A : Type 0} → Result A → Call S A
lift r s = (r, s)

abbrev pub gets : {S A : Type 0} → (S → A) → Call S A
gets f s = (ok (f s), s)

abbrev pub modify : {S : Type 0} → (S → S) → Call S (Unit {0})
modify f s = (ok tt, f s)

-- `x, err := call()`: the caller looks at the error itself.
abbrev pub attempted : {S A : Type 0} → Result A × S → Result (Result A) × S
attempted (ok a, s) = (ok (ok a), s)
attempted (err e, s) = (ok (err e), s)
attempted (panic, s) = (panic, s)
attempted (diverge, s) = (diverge, s)

abbrev pub attempt : {S A : Type 0} → Call S A → Call S (Result A)
attempt m s = attempted (m s)

-- `if err != nil` for a call that returns only an error.
abbrev pub raise_opt : {S : Type 0} → Option Error → Call S (Unit {0})
raise_opt none = return tt
raise_opt (some e) = fail e

-- A call on a part of the state: a field and its update.
abbrev pub put_back : {S T A : Type 0} → (T → S → S) → S → Result A × T → Result A × S
put_back put s (r, t) = (r, put t s)

abbrev pub on : {S T A : Type 0} → (S → T) → (T → S → S) → Call T A → Call S A
on get put m s = put_back put s (m (get s))
