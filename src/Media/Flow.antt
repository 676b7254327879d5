-- ===== src/Media/Flow.antt =====
-- The control flow of a method with early returns and exceptions, as in src/media/backend_node.cpp:
-- a step on the object's state goes on with a value, has returned, or has thrown.
pub mod Rules
use eavp.Base.{Bool, true, false, if◌then◌else◌}
use eavp.Status.{Status, is_ok}
use eavp.Media.Node.{Exception, Outcome, returned, thrown}

pub data Flow (A : Type 0) : Type 0 where
  next : A → Flow A
  done : Status → Flow A
  raised : Exception → Flow A

-- A step of a method on an object of state `S`.
abbrev pub Step : Type 0 → Type 0 → Type 0
Step S A = S → Flow A × S

module _ {S A B : Type 0} where
  unfoldable pub after : Flow A × S → (A → Step S B) → Flow B × S
  after (next a, s) f = f a s
  after (done st, s) f = (done st, s)
  after (raised e, s) f = (raised e, s)

  infixl 10 ◌>>=◌
  abbrev pub ◌>>=◌ : Step S A → (A → Step S B) → Step S B
  (m >>= f) s = after (m s) f

  infixl 10 ◌>>◌
  abbrev pub ◌>>◌ : Step S A → Step S B → Step S B
  (m >> n) s = after (m s) (λ a. n)

module _ {S A : Type 0} where
  abbrev pub pure : A → Step S A
  pure a s = (next a, s)

  -- `return status;`.
  abbrev pub finish : Status → Step S A
  finish st s = (done st, s)

module _ {S : Type 0} where
  -- `if (!status.ok()) { return status; }`.
  abbrev pub ensure : Status → Step S Unit
  ensure st s = if is_ok st then (next tt, s) else (done st, s)
