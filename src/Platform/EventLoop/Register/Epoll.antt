-- ===== src/Platform/EventLoop/Register/Epoll.antt =====
-- The calls of the epoll in a registration of src/platform/linux/linux_event_loop.cpp: the descriptors
-- that are added, and those that are removed again.
use eavp.Base.{
  ℕ, ◌+◌, ◌%◌, ◌^◌, Bool, true, false, ◌&&◌, List, [], ◌∷◌, ◌++◌, Option, none, some, ◌≡◌, ◌⊎◌, inl,
  inr, refl, ap, ◌∙◌, if_both, Bool-cases,
}
use eavp.Base.Int.{ℤ}
use eavp.Platform.EventLoop.{System, EventLoop, PollFd, invalidate}
use eavp.Platform.EventLoop.Events.{epoll_interests}
use eavp.Platform.EventLoop.Register.{
  remove_added, rollback_registration, add_each, new_tokens, token_after,
}

-- A list backwards before another one.
abbrev pub onto {ℓ} : {A : Type ℓ} → List A → List A → List A
onto [] ys = ys
onto (x ∷ xs) ys = onto xs (x ∷ ys)

module _ {K : Type 0} (sys : System K) (epoll : ℕ) where
  -- The epoll takes each descriptor, asked for its events, under its token.
  pub Taken : List ℕ → List PollFd → K → Type 0
  Taken [] [] q = Unit
  Taken (t ∷ ts) (d ∷ ds) q =
      let r = sys.epoll_add epoll d.fd (epoll_interests d.events) t q in
      (r.0 ≡ true) × Taken ts ds r.1
  Taken [] (d ∷ ds) q = false ≡ true
  Taken (t ∷ ts) [] q = false ≡ true

  -- The system after these calls.
  abbrev pub entered : List ℕ → List PollFd → K → K
  entered (t ∷ ts) (d ∷ ds) q =
      entered ts ds (sys.epoll_add epoll d.fd (epoll_interests d.events) t q).1
  entered [] [] q = q
  entered [] (d ∷ ds) q = q
  entered (t ∷ ts) [] q = q

  -- The epoll removes each descriptor.
  pub Removed : List PollFd → K → Type 0
  Removed [] q = Unit
  Removed (d ∷ ds) q = let r = sys.epoll_remove epoll d.fd q in (r.0 ≡ true) × Removed ds r.1

  -- It does not remove one of them.
  pub Missed : List PollFd → K → Type 0
  Missed [] q = false ≡ true
  Missed (d ∷ ds) q = let r = sys.epoll_remove epoll d.fd q in (r.0 ≡ false) ⊎ Missed ds r.1

  -- The system after it was asked to remove each of them.
  abbrev pub swept : List PollFd → K → K
  swept [] q = q
  swept (d ∷ ds) q = swept ds (sys.epoll_remove epoll d.fd q).1

  -- The descriptors `ds` under the tokens from `next` on, the first of which are taken until one is
  -- refused.
  pub record Refused (next : ℕ) (ds : List PollFd) (q : K) : Type 0 where
    pub taken : List PollFd
    pub refused : PollFd
    pub rest : List PollFd
    pub parts : ds ≡ taken ++ (refused ∷ rest)
    pub entries : Taken (new_tokens next taken) taken q
    pub after : K
    pub refusal :
        sys.epoll_add epoll refused.fd
          (epoll_interests refused.events)
          (token_after next taken)
          (entered (new_tokens next taken) taken q)
        ≡ (false, after)

  -- How the loop that adds descriptors ends; `added` are those that it had added before.
  abbrev Ends : List PollFd → ℕ → List PollFd → K → Option (List PollFd × ℤ) × K → Type 0
  Ends added next ds q r =
      (Taken (new_tokens next ds) ds q × (r ≡ (none, entered (new_tokens next ds) ds q)))
      ⊎ ((f : Refused next ds q) × (r
            ≡ (some (onto f.taken added, sys.last_error f.after), f.after)))

  Ends-cons :
      (added : List PollFd) (next : ℕ) (d : PollFd) (ds : List PollFd) (q : K)
      (r : Option (List PollFd × ℤ) × K)
      → let a = sys.epoll_add epoll d.fd (epoll_interests d.events) next q in
        a.0 ≡ true → Ends (d ∷ added) ((next + 1) % 2 ^ 64) ds a.1 r → Ends added next (d ∷ ds) q r
  unfolding new_tokens token_after Taken
  Ends-cons added next d ds q r t (inl (h, e)) = inl ((t, h), e)
  Ends-cons added next d ds q r t (inr (f, e)) = inr (
    record {
      taken = d ∷ f.taken;
      refused = f.refused;
      rest = f.rest;
      parts = ap (λ xs. d ∷ xs) f.parts;
      entries = (t, f.entries);
      after = f.after;
      refusal = f.refusal;
    },
    e,
  )

  pub add_each-Ends :
      (added : List PollFd) (next : ℕ) (ds : List PollFd) (q : K)
      → Ends added next ds q (add_each sys epoll added (new_tokens next ds) ds q)
  unfolding add_each new_tokens token_after Taken
  add_each-Ends added next [] q = inl (tt, refl)
  add_each-Ends added next (d ∷ ds) q =
      let a = sys.epoll_add epoll d.fd (epoll_interests d.events) next q in
      if_both (Ends added next (d ∷ ds) q) a.0
        (λ e.
          Ends-cons added next d ds q _ e (add_each-Ends (d ∷ added) ((next + 1) % 2 ^ 64) ds a.1))
        (λ e. inr (
          record {
            taken = [];
            refused = d;
            rest = ds;
            parts = refl;
            entries = tt;
            after = a.1;
            refusal = ap (λ b. (b, a.1)) e;
          },
          refl,
        ))

  remove_added-swept :
      (ds : List PollFd) (complete : Bool) (q : K)
      → (remove_added sys epoll ds complete q).1 ≡ swept ds q
  unfolding remove_added
  remove_added-swept [] complete q = refl
  remove_added-swept (d ∷ ds) complete q =
      let r = sys.epoll_remove epoll d.fd q in remove_added-swept ds (complete && r.0) r.1

  remove_added-false : (ds : List PollFd) (q : K) → (remove_added sys epoll ds false q).0 ≡ false
  unfolding remove_added
  remove_added-false [] q = refl
  remove_added-false (d ∷ ds) q = remove_added-false ds (sys.epoll_remove epoll d.fd q).1

  -- The removal is complete when all are removed, and else one was not.
  remove_added-Removed :
      (ds : List PollFd) (q : K)
      → (((remove_added sys epoll ds true q).0 ≡ true) × Removed ds q)
        ⊎ (((remove_added sys epoll ds true q).0 ≡ false) × Missed ds q)
  unfolding remove_added Removed Missed
  remove_added-Removed [] q = inl (refl, tt)
  remove_added-Removed (d ∷ ds) q =
      let r = sys.epoll_remove epoll d.fd q in
      let of = λ (b : Bool). (remove_added sys epoll ds b r.1).0 in
      elim (Bool-cases r.0) [
        | inl e ↦ elim (remove_added-Removed ds r.1) [
          | inl (f, h) ↦ inl (ap of e ∙ f, (e, h))
          | inr (f, h) ↦ inr (ap of e ∙ f, inr h)
        ]
        | inr e ↦ inr (ap of e ∙ remove_added-false ds r.1, inl e)
      ]

  -- What becomes of a loop when descriptors are removed again: all of them are, and the loop is as it
  -- was; or one is not, and the loop is shut after all of them were tried.
  abbrev pub Undone : EventLoop → List PollFd → K → EventLoop × K → Type 0
  Undone l ds q r =
      (Removed ds q × (r ≡ (l, swept ds q)))
      ⊎ (Missed ds q
          × (r.0 ≡ record l { invalidated = true; event_fd = none; epoll_fd = none })
          × (r ≡ invalidate sys l (swept ds q)))

  pub rollback_registration-Undone :
      (l : EventLoop) (ds : List PollFd) (q : K)
      → Undone l ds q (rollback_registration sys l epoll ds q)
  unfolding rollback_registration invalidate
  rollback_registration-Undone l ds q =
      let s = remove_added-swept ds true q in
      elim (remove_added-Removed ds q) [
        | inl (e, h) ↦ inl (h, rw (e, s) refl)
        | inr (e, h) ↦ inr (h, rw e refl, rw (e, s) refl)
      ]
