-- ===== src/Base/Stateful.antt =====
-- Code that changes a state, as a function from the state to a result and the new state.
use mathlib.Core.Option.{Option, none, some}

abbrev pub State : Type 0 → Type 0 → Type 0
State S A = S → A × S

infixl 5 ◌>>=◌ ◌>>◌
abbrev pub ◌>>=◌ : {S A B : Type 0} → State S A → (A → State S B) → State S B
◌>>=◌ m f s = let (a, s') = m s in f a s'

abbrev pub ◌>>◌ : {S A B : Type 0} → State S A → State S B → State S B
m >> n = m >>= λ _. n

abbrev pub pure : {S A : Type 0} → A → State S A
pure a s = (a, s)

abbrev pub gets : {S A : Type 0} → (S → A) → State S A
gets f s = (f s, s)

-- The result of a call that can fail.
pub data Result (E A : Type 0) : Type 0 where
  ok : A → Result E A
  err : E → Result E A

-- The state behind a call that changes it, or fails and leaves it as it was.
abbrev pub saved : {E S : Type 0} → Result E S → S → S
saved (ok s') s = s'
saved (err e) s = s

abbrev pub error_of : {E S : Type 0} → Result E S → Option E
error_of (ok s') = none
error_of (err e) = some e

abbrev pub attempt : {E S : Type 0} → (S → Result E S) → State S (Option E)
attempt f s = (error_of (f s), saved (f s) s)
