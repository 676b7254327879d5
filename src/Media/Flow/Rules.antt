-- ===== src/Media/Flow/Rules.antt =====
-- Rules for what holds after a step of a method: where it goes on, where it has returned, and where it
-- has thrown.
use eavp.Base.{true, false, ◌≡◌, inl, inr, Bool-cases}
use eavp.Status.{Status, is_ok}
use eavp.Media.Flow.{Flow, next, done, raised, Step, after, ensure}

module _ {S : Type 0} (D : Status → S → Type 0) (E : S → Type 0) where
  -- `Q` of a step that goes on, `D` of one that has returned, `E` of one that has thrown.
  unfoldable pub Holds : {A : Type 0} → (A → S → Type 0) → Flow A × S → Type 0
  Holds Q (next a, s) = Q a s
  Holds Q (done st, s) = D st s
  Holds Q (raised e, s) = E s

  -- What holds after a step that is followed by another.
  pub Holds-after :
      {A C : Type 0} (Q : A → S → Type 0) (R : C → S → Type 0) (r : Flow A × S) (f : A → Step S C)
      → Holds Q r
      → ((a : A) (s : S) → Q a s → Holds R (f a s))
      → Holds R (after r f)
  unfolding after Holds
  Holds-after Q R (next a, s) f h k = k a s h
  Holds-after Q R (done st, s) f h k = h
  Holds-after Q R (raised e, s) f h k = h

  -- What holds once the check of a status has let it pass.
  pub Holds-ensure :
      (R : Unit → S → Type 0) (st : Status) (s : S)
      → (is_ok st ≡ false → D st s)
      → (is_ok st ≡ true → R tt s)
      → Holds R (ensure st s)
  unfolding Holds
  Holds-ensure R st s d r = elim (Bool-cases (is_ok st)) [ inl e ↦ rw e (r e) | inr e ↦ rw e (d e) ]
