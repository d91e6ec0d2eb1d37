-- ===== src/Action.antt =====
-- Methods of objects that may end by an exception: functions from a state to a result and the state
-- after it, which an exception leaves as the statements before it made it.

pub data Result (E : Type 0) (A : Type 0) : Type 0 where
  ok : A → Result E A
  throws : E → Result E A

-- A function of a result, where there is one.
abbrev pub and_then : {E A B : Type 0} → Result E A → (A → Result E B) → Result E B
and_then (ok a) f = f a
and_then (throws e) f = throws e

abbrev pub Action : Type 0 → Type 0 → Type 0 → Type 0
Action E S A = S → Result E A × S

module _ {E S : Type 0} where
  abbrev pub pure : {A : Type 0} → A → Action E S A
  pure a s = (ok a, s)

  abbrev pub throw : {A : Type 0} → E → Action E S A
  throw e s = (throws e, s)

  abbrev pub next : {A B : Type 0} → Result E A × S → (A → Action E S B) → Result E B × S
  next (ok a, s) f = f a s
  next (throws e, s) f = (throws e, s)

  infixl 5 ◌>>=◌ ◌>>◌
  abbrev pub ◌>>=◌ : {A B : Type 0} → Action E S A → (A → Action E S B) → Action E S B
  ◌>>=◌ m f s = next (m s) f

  abbrev pub ◌>>◌ : {B : Type 0} → Action E S (Unit {0}) → Action E S B → Action E S B
  m >> k = m >>= λ _. k

  abbrev pub gets : {A : Type 0} → (S → A) → Action E S A
  gets f s = (ok (f s), s)

  abbrev pub modify : (S → S) → Action E S (Unit {0})
  modify f s = (ok tt, f s)

  -- `try { m } catch (…) { handler }`
  abbrev pub caught : {A : Type 0} → Result E A × S → (E → Action E S A) → Result E A × S
  caught (ok a, s) handler = (ok a, s)
  caught (throws e, s) handler = handler e s

  abbrev pub catch : {A : Type 0} → Action E S A → (E → Action E S A) → Action E S A
  catch m handler s = caught (m s) handler

-- An action on a part of the state.
module _ {E S T : Type 0} (part : S → T) (put : T → S → S) where
  abbrev pub lifted : {A : Type 0} → S → Result E A × T → Result E A × S
  lifted s (r, t) = (r, put t s)

  abbrev pub lift : {A : Type 0} → Action E T A → Action E S A
  lift m s = lifted s (m (part s))
