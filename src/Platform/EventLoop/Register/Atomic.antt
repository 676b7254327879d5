-- ===== src/Platform/EventLoop/Register/Atomic.antt =====
-- A registration in src/platform/linux/linux_event_loop.cpp is done as a whole or not at all.
use mathlib.Core.Bool.{false≢true}
use eavp.Base.{
  ℕ, ◌<◌, false, not, List, [], ◌∷◌, length, Option, none, some, ◌≡◌, inl, inr, refl, sym, ◌∙◌,
  arith, if_both, All,
}
use eavp.Status.{Status, is_ok, Result, success, failure}
use eavp.Platform.EventLoop.{System, EventLoop, PollFd, has_source}
use eavp.Platform.EventLoop.Register.{
  is_missing, check_descriptors, committed, targets, token_after, add_each, after_add, add_checked,
  add_descriptors, register_on, register_open, register_source, new_tokens,
}
use eavp.Platform.EventLoop.Register.Epoll.{onto, add_each-Ends, rollback_registration-Undone}
use eavp.Platform.EventLoop.Register.Descriptors.{
  IsNew, Apart, check_descriptors-IsNew, check_descriptors-Apart, check_descriptors-ok, All-unseen,
}
use eavp.Platform.EventLoop.Register.Tokens.{
  new_tokens-Counted, targets-Targeted, fds-map, cleared-map,
}
use eavp.Platform.EventLoop.Register.Outcome.{
  Refusal, closed, null, known, unanswered, nothing, unfit, Atomic,
}

module _ {K : Type 0} (sys : System K) (l : EventLoop) where
  refused :
      (p s : Option ℕ) (q : K) (t : Status) (after : K)
      → is_ok t ≡ false
      → Refusal sys l p s q t after
      → Atomic sys l p s q (t, l, after)
  refused p s q t after h b = inr (inl (record { fails = h; same = refl; because = b }))

  module _ (p s epoll : ℕ) (fresh : has_source s l.registered_sources ≡ false)
      (not_shut : l.invalidated ≡ false) (there : l.epoll_fd ≡ some epoll)
      (event : is_missing l.event_fd ≡ false) (q : K) where
    after_add-Atomic :
        (ds : List PollFd) (asked : K)
        → sys.poll_descriptors s q ≡ (success ds, asked)
        → 0 < length ds
        → All (IsNew l.registered_fds) ds
        → Apart ds
        → Atomic sys l (some p) (some s) q (
            after_add sys l epoll p s ds
              (add_each sys epoll [] (new_tokens l.next_token ds) ds asked))
    unfolding after_add committed
    after_add-Atomic ds asked e k n x = elim (add_each-Ends sys epoll [] l.next_token ds asked) [
      | inl (h, f) ↦ inl (record {
        of_pipeline = p;
        of_source = s;
        epoll = epoll;
        descriptors = ds;
        asked = asked;
        tokens = new_tokens l.next_token ds;
        entries = targets (length l.sources) 0 (new_tokens l.next_token ds);
        last = token_after l.next_token ds;
        pipeline_there = refl;
        source_there = refl;
        not_shut = not_shut;
        epoll_there = there;
        event_there = event;
        source_new = fresh;
        answer = e;
        some_there = k;
        all_new = n;
        apart = x;
        counted = new_tokens-Counted l.next_token ds;
        targeted = targets-Targeted (length l.sources) 0 (new_tokens l.next_token ds);
        taken = h;
        done = rw (f, after_add, committed, ← fds-map ds, ← cleared-map ds) refl;
      })
      | inr (f, g) ↦ inr (
          inr (record {
            of_source = s;
            epoll = epoll;
            descriptors = ds;
            asked = asked;
            source_there = refl;
            epoll_there = there;
            answer = e;
            stops = f;
            told = rw (g, after_add) refl;
            undone =
                rw (g, after_add)
                  (rollback_registration-Undone sys epoll l (onto f.taken []) f.after);
          }))
    ]

    add_checked-Atomic :
        (ds : List PollFd) (asked : K)
        → sys.poll_descriptors s q ≡ (success ds, asked)
        → 0 < length ds
        → Atomic sys l (some p) (some s) q (add_checked sys l epoll p s ds asked)
    unfolding add_checked
    add_checked-Atomic ds asked e k =
        if_both (Atomic sys l (some p) (some s) q)
          (not (is_ok (check_descriptors l.registered_fds [] ds)))
          (λ h.
            let t = check_descriptors l.registered_fds [] ds in
            let f : is_ok t ≡ false = ground (arith, h) in
            refused (some p) (some s) q t asked f (
              unfit s t asked ds refl e (λ (n, x).
                false≢true
                  (sym f ∙ check_descriptors-ok l.registered_fds [] ds n x (All-unseen ds)))))
          (λ h.
            after_add-Atomic ds asked e k
              (check_descriptors-IsNew l.registered_fds [] ds (ground (arith, h)))
              (check_descriptors-Apart l.registered_fds [] ds (ground (arith, h))).1)

    add_descriptors-Atomic :
        (a : Result (List PollFd) × K)
        → sys.poll_descriptors s q ≡ a
        → ((t : Status) → a.0 ≡ failure t → is_ok t ≡ false)
        → Atomic sys l (some p) (some s) q (add_descriptors sys l epoll p s a)
    unfolding add_descriptors
    add_descriptors-Atomic (failure t, asked) e f =
        refused (some p) (some s) q t asked (f t refl) (unanswered s t asked refl e)
    add_descriptors-Atomic (success [], asked) e f =
        refused (some p) (some s) q _ asked refl (nothing s asked refl e)
    add_descriptors-Atomic (success (d ∷ ds), asked) e f =
        add_checked-Atomic (d ∷ ds) asked e (omega arith)

  module _
      (fails : (s : ℕ) (q : K) (t : Status)
        → (sys.poll_descriptors s q).0 ≡ failure t
        → is_ok t ≡ false) where
    register_on-Atomic :
        (epoll : ℕ) (p s : Option ℕ) (q : K)
        → l.invalidated ≡ false
        → l.epoll_fd ≡ some epoll
        → is_missing l.event_fd ≡ false
        → Atomic sys l p s q (register_on sys l epoll p s q)
    unfolding register_on
    register_on-Atomic epoll (some p) (some s) q n h v =
        if_both (Atomic sys l (some p) (some s) q) (has_source s l.registered_sources)
          (λ e. refused (some p) (some s) q _ q refl (known s refl e))
          (λ e.
            add_descriptors-Atomic p s epoll e n h v q (sys.poll_descriptors s q) refl (fails s q))
    register_on-Atomic epoll none s q n h v = refused none s q _ q refl (null (inl refl))
    register_on-Atomic epoll (some p) none q n h v =
        refused (some p) none q _ q refl (null (inr refl))

    register_open-Atomic :
        (epoll p s : Option ℕ) (q : K)
        → l.invalidated ≡ false
        → l.epoll_fd ≡ epoll
        → Atomic sys l p s q (register_open sys l epoll p s q)
    unfolding register_open
    register_open-Atomic none p s q n h = refused p s q _ q refl (closed (inr (inl h)))
    register_open-Atomic (some epoll) p s q n h =
        if_both (Atomic sys l p s q) (is_missing l.event_fd)
          (λ e. refused p s q _ q refl (closed (inr (inr e))))
          (λ v. register_on-Atomic epoll p s q n h v)

    -- When a source that fails reports a status that is not ok, a registration ends in one of three
    -- ways. It is ok: the pipeline and the source are not null, the loop is initialized and not shut,
    -- the source is new, its answer is not empty, and each descriptor of the answer is one, asks for
    -- allowed events only, is not registered and is unlike the others; the epoll took each of them
    -- with the events that it asks for, under consecutive tokens from the next one of the loop on; and
    -- the loop is the old one with exactly this source added, its descriptors, their tokens, and an
    -- entry that leads each token to its descriptor. Or the status is not ok, the loop is as it was,
    -- the epoll was not called, and there is a reason: the loop is shut or not initialized, a pointer
    -- is null, the source is registered, its answer is a failure, whose status is then returned, or
    -- is empty, or the descriptors do not meet the conditions above. Or the epoll took some of the
    -- answer's first descriptors and refused the next one; the status has the error of that call, and
    -- those that were taken were removed, the last one first: the loop is as it was when the epoll
    -- removed all of them, and is shut when it did not.
    pub register_source-Atomic :
        (p s : Option ℕ) (q : K) → Atomic sys l p s q (register_source sys l p s q)
    unfolding register_source
    register_source-Atomic p s q =
        if_both (Atomic sys l p s q) l.invalidated (λ e. refused p s q _ q refl (closed (inl e)))
          (λ e. register_open-Atomic l.epoll_fd p s q e refl)
