-- ===== src/Base/Run.antt =====
-- Computations on a state that may stop with an error; the state at the stop is kept.
use mathlib.Core.Bool.{Bool, true, false}

pub data Result (E A : Type 0) : Type 0 where
  ok : A → Result E A
  err : E → Result E A

abbrev pub Run : Type 0 → Type 0 → Type 0 → Type 0
Run S E A = S → Result E A × S

-- The rest of a run, after its first part.
abbrev pub and_then : {S E A B : Type 0} → Result E A → S → (A → Run S E B) → Result E B × S
and_then (ok a) s k = k a s
and_then (err e) s k = (err e, s)

infixl 5 ◌>>=◌ ◌>>◌
abbrev pub ◌>>=◌ : {S E A B : Type 0} → Run S E A → (A → Run S E B) → Run S E B
◌>>=◌ m k s = let (r, s') = m s in and_then r s' k

abbrev pub ◌>>◌ : {S E B : Type 0} → Run S E (Unit {0}) → Run S E B → Run S E B
m >> k = m >>= λ _. k

abbrev pub pure : {S E A : Type 0} → A → Run S E A
pure a s = (ok a, s)

-- Stop with `e` unless the test holds.
abbrev pub require : {S E : Type 0} → Bool → E → Run S E (Unit {0})
require true e s = (ok tt, s)
require false e s = (err e, s)

-- A step that cannot fail.
abbrev pub lift : {S E A : Type 0} → (S → A × S) → Run S E A
lift m s = let (a, s') = m s in (ok a, s')
