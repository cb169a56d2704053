-- ===== src/Base/Action.antt =====
-- An asynchronous method as an action: it reads and changes a state and returns or throws. The
-- state comes back after a throw too, since what was written stays written.
use mathlib.Core.Bool.{Bool}
use mathlib.Core.Option.{Option, none, some}
use cloud_commitment_portfol.Base.Tests.{if◌then◌else◌}

pub data Result (E A : Type 0) : Type 0 where
  ok : A → Result E A
  throw : E → Result E A

abbrev pub Action : Type 0 → Type 0 → Type 0 → Type 0
Action S E A = S → Result E A × S

module _ {S E A : Type 0} where
  abbrev pub pure : A → Action S E A
  pure a s = (ok a, s)

  abbrev pub raise : E → Action S E A
  raise e s = (throw e, s)

  abbrev pub gets : (S → A) → Action S E A
  gets f s = (ok (f s), s)

  abbrev pub or_raise : Option A → E → Action S E A
  or_raise none e = raise e
  or_raise (some a) _ = pure a

  -- `try { … } catch (error) { … }`.
  abbrev pub handled : Result E A × S → (E → Action S E A) → Result E A × S
  handled (ok a, s) h = (ok a, s)
  handled (throw e, s) h = h e s

  abbrev pub catch : Action S E A → (E → Action S E A) → Action S E A
  catch m h s = handled (m s) h

  -- BEGIN … COMMIT: a throw inside takes the state back to where the transaction began.
  abbrev pub committed : S → Result E A × S → Result E A × S
  committed before (ok a, s) = (ok a, s)
  committed before (throw e, s) = (throw e, before)

  abbrev pub transaction : Action S E A → Action S E A
  transaction m s = committed s (m s)

module _ {S E : Type 0} where
  abbrev pub modify : (S → S) → Action S E (Unit {0})
  modify f s = (ok tt, f s)

  abbrev pub raise_if : Bool → E → Action S E (Unit {0})
  raise_if c e s = (if c then throw e else ok tt, s)

abbrev pub then_do : {S E A B : Type 0} → Result E A × S → (A → Action S E B) → Result E B × S
then_do (ok a, s) f = f a s
then_do (throw e, s) f = (throw e, s)

infixl 5 ◌>>=◌ ◌>>◌
abbrev pub ◌>>=◌ : {S E A B : Type 0} → Action S E A → (A → Action S E B) → Action S E B
◌>>=◌ m f s = then_do (m s) f

abbrev pub ◌>>◌ : {S E A B : Type 0} → Action S E A → Action S E B → Action S E B
m >> k = m >>= λ _. k
