-- ===== src/Platform/EventLoop/Wait/Ready.antt =====
-- What a turn of src/platform/linux/linux_event_loop.cpp tells.
use mathlib.Core.Path.{subst}
use eavp.Base.{
  ℕ, zero, suc, ◌+◌, ◌<◌, Bool, true, false, not, List, [], ◌∷◌, ◌++◌, Option, none, some, ◌==◌,
  get_elem?, length, ◌≡◌, refl, sym, ap, ◌∙◌, All, arith, Bool-cases, inl, inr, if_both, ==_iff,
}
use eavp.Base.Int.{int_eq}
use eavp.Status.{Status, Result, success, failure, success-eq}
use eavp.Platform.EventLoop.{System, EventLoop, SourceRecord, EpollEvent, has_source}
use eavp.Platform.EventLoop.Events.{EpollEvents}
use eavp.Platform.EventLoop.Wait.{
  Turn, Marks, update_at, clear_sources, mark_source, mark_target, interrupted, after_wait,
  wait_events, mark_event, next_event, mark_events, read_control, add_ready, evaluated,
  evaluate_source, evaluate_sources, after_evaluate, after_marks, after_events, wait_on, wait_once,
  find_token,
}

-- The pipelines of sources.
abbrev pub pipelines : List SourceRecord → List ℕ
pipelines [] = []
pipelines (s ∷ ss) = s.pipeline ∷ pipelines ss

-- No number twice.
abbrev pub AllDistinct : List ℕ → Type 0
AllDistinct [] = Unit
AllDistinct (x ∷ xs) = (has_source x xs ≡ false) × AllDistinct xs

pipelines-clear_sources : (ss : List SourceRecord) → pipelines (clear_sources ss) ≡ pipelines ss
unfolding clear_sources
pipelines-clear_sources [] = refl
pipelines-clear_sources (s ∷ ss) = ap (λ l. s.pipeline ∷ l) (pipelines-clear_sources ss)

pipelines-update_at :
    (i j : ℕ) (e : EpollEvents) (ss : List SourceRecord)
    → pipelines (update_at i (mark_source e j) ss) ≡ pipelines ss
unfolding update_at mark_source
pipelines-update_at i j e [] = refl
pipelines-update_at zero j e (s ∷ ss) = refl
pipelines-update_at (suc i) j e (s ∷ ss) = ap (λ l. s.pipeline ∷ l) (pipelines-update_at i j e ss)

pipelines-get :
    (ss : List SourceRecord) (i : ℕ) (s : SourceRecord)
    → get_elem? ss i ≡ some s
    → has_source s.pipeline (pipelines ss) ≡ true
unfolding has_source
pipelines-get [] i s h = absurd (cc)
pipelines-get (t ∷ ss) zero s h =
    let e : t ≡ s = cc in
    let k = (==_iff s.pipeline t.pipeline).1 (ap (λ (x : SourceRecord). x.pipeline) (sym e)) in
    ground (arith, k)
pipelines-get (t ∷ ss) (suc i) s h = let k = pipelines-get ss i s h in ground (arith, k)

has_source-append :
    (x y : ℕ) (l : List ℕ)
    → has_source x l ≡ false
    → (x == y) ≡ false
    → has_source x (l ++ y ∷ []) ≡ false
unfolding has_source
has_source-append x y [] h e = ground (arith, e)
has_source-append x y (z ∷ l) h e =
    let k = has_source-append x y l (ground (arith, h)) e in ground (arith, h, k)

distinct_append :
    (x : ℕ) (l : List ℕ) → AllDistinct l → has_source x l ≡ false → AllDistinct (l ++ x ∷ [])
unfolding has_source
distinct_append x [] d h = (refl, tt)
distinct_append x (y ∷ l) d h =
    (has_source-append y x l d.0 (ground (arith, h)), distinct_append x l d.1 (ground (arith, h)))

all_append : (P : ℕ → Type 0) (x : ℕ) (l : List ℕ) → All P l → P x → All P (l ++ x ∷ [])
all_append P x [] a p = (p, tt)
all_append P x (y ∷ l) a p = (a.0, all_append P x l a.1 p)

-- Pipelines of these sources, each once.
pub record AreReady (ss : List ℕ) (ps : List ℕ) : Type 0 where
  pub known : All (λ p. has_source p ss ≡ true) ps
  pub once : AllDistinct ps

module _ {K : Type 0} (sys : System K) where
  after_wait-count :
      (go : ℕ → K → Result (List EpollEvent × ℕ) × K) (count bound : ℕ)
      (r : Option (List EpollEvent) × K) (es : List EpollEvent) (n : ℕ)
      → count < bound
      → ((q : K) → (go (count + 1) q).0 ≡ success (es, n) → n < bound)
      → (after_wait sys go count r).0 ≡ success (es, n)
      → n < bound
  unfolding after_wait
  after_wait-count go count bound (some events, q) es n l f h =
      let e : count ≡ n = ap (λ (x : List EpollEvent × ℕ). x.1) (success-eq h) in
      omega (arith, l, e)
  after_wait-count go count bound (none, q) es n l f h =
      elim (Bool-cases (int_eq (sys.last_error q) interrupted)) [
        | inl y ↦ f q (rw y at h)
        | inr y ↦ absurd (ground (arith, y, h))
      ]

  -- Fewer interruptions than are left precede the events.
  wait_events-count :
      (epoll capacity left count : ℕ) (q : K) (es : List EpollEvent) (n : ℕ)
      → (wait_events sys epoll capacity left count q).0 ≡ success (es, n)
      → n < left + count
  unfolding wait_events
  wait_events-count epoll capacity zero count q es n h = absurd (ground (arith, h))
  wait_events-count epoll capacity (suc left) count q es n h =
      after_wait-count (wait_events sys epoll capacity left) count (suc left + count)
        (sys.epoll_wait_events epoll capacity q) es n (omega arith)
        (λ k e. omega (arith, wait_events-count epoll capacity left (count + 1) k es n e)) h

  mark_target-pipelines :
      (e : EpollEvents) (t : Option (ℕ × ℕ)) (m : Marks)
      → pipelines (mark_target e t m).sources ≡ pipelines m.sources
  unfolding mark_target
  mark_target-pipelines e none m = refl
  mark_target-pipelines e (some (i, j)) m = pipelines-update_at i j e m.sources

  -- Marks on these sources.
  abbrev Of : List ℕ → Option Status × Marks × K → Type 0
  Of ss r = pipelines r.1.sources ≡ ss

  read_control-Of :
      (ss : List ℕ) (m : Marks) (r : Bool × K)
      → pipelines m.sources ≡ ss
      → Of ss (read_control sys m r)
  unfolding read_control
  read_control-Of ss m (true, q) h = h
  read_control-Of ss m (false, q) h = h

  mark_event-Of :
      (ss : List ℕ) (event : ℕ) (tokens : List (ℕ × ℕ × ℕ)) (e : EpollEvent) (m : Marks) (q : K)
      → pipelines m.sources ≡ ss
      → Of ss (mark_event sys event tokens e m q)
  unfolding mark_event
  mark_event-Of ss event tokens e m q h =
      if_both (Of ss) (not (e.token == 0))
        (λ _. mark_target-pipelines e.events (find_token e.token tokens) m ∙ h)
        (λ _.
          if_both (Of ss) m.control_wakeup (λ _. h)
            (λ _. read_control-Of ss m (sys.read_event_fd event q) h))

  next_event-Of :
      (ss : List ℕ) (go : Marks → K → Option Status × Marks × K) (r : Option Status × Marks × K)
      → ((m : Marks) (q : K) → pipelines m.sources ≡ ss → Of ss (go m q))
      → Of ss r
      → Of ss (next_event sys go r)
  unfolding next_event
  next_event-Of ss go (some s, m, q) f h = h
  next_event-Of ss go (none, m, q) f h = f m q h

  mark_events-Of :
      (ss : List ℕ) (event : ℕ) (tokens : List (ℕ × ℕ × ℕ)) (es : List EpollEvent) (m : Marks)
      (q : K)
      → pipelines m.sources ≡ ss
      → Of ss (mark_events sys event tokens es m q)
  unfolding mark_events
  mark_events-Of ss event tokens [] m q h = h
  mark_events-Of ss event tokens (e ∷ es) m q h =
      next_event-Of ss (mark_events sys event tokens es) (mark_event sys event tokens e m q)
        (mark_events-Of ss event tokens es) (mark_event-Of ss event tokens e m q h)

  add_ready-AreReady :
      (ss ps : List ℕ) (p : ℕ) (b : Bool)
      → has_source p ss ≡ true
      → AreReady ss ps
      → AreReady ss (add_ready sys ps p b)
  unfolding add_ready
  add_ready-AreReady ss ps p false k h = h
  add_ready-AreReady ss ps p true k h =
      if_both (AreReady ss) (has_source p ps) (λ _. h)
        (λ n. record {
          known = all_append (λ x. has_source x ss ≡ true) p ps h.known k;
          once = distinct_append p ps h.once n;
        })

  -- What the evaluation of sources with these pipelines gives.
  abbrev Given : List ℕ → Result (List ℕ) × K → Type 0
  Given ss r = (ps : List ℕ) → r.0 ≡ success ps → AreReady ss ps

  evaluated-Given :
      (ss : List ℕ) (go : List ℕ → K → Result (List ℕ) × K) (ps : List ℕ) (p : ℕ)
      (r : Result Bool × K)
      → has_source p ss ≡ true
      → AreReady ss ps
      → ((xs : List ℕ) (q : K) → AreReady ss xs → Given ss (go xs q))
      → Given ss (evaluated sys go ps p r)
  unfolding evaluated
  evaluated-Given ss go ps p (failure s, q) k h f = λ xs e. absurd (ground (arith, e))
  evaluated-Given ss go ps p (success b, q) k h f =
      f (add_ready sys ps p b) q (add_ready-AreReady ss ps p b k h)

  evaluate_source-Given :
      (sources : List SourceRecord) (i : ℕ) (go : List ℕ → K → Result (List ℕ) × K)
      (o : Option SourceRecord) (ps : List ℕ) (q : K)
      → get_elem? sources i ≡ o
      → AreReady (pipelines sources) ps
      → ((xs : List ℕ) (q : K)
          → AreReady (pipelines sources) xs
          → Given (pipelines sources) (go xs q))
      → Given (pipelines sources) (evaluate_source sys go o ps q)
  unfolding evaluate_source
  evaluate_source-Given sources i go none ps q e h f = f ps q h
  evaluate_source-Given sources i go (some s) ps q e h f =
      evaluated-Given (pipelines sources) go ps s.pipeline
        (sys.evaluate_poll_events s.source s.descriptors q) (pipelines-get sources i s e) h f

  evaluate_sources-Given :
      (sources : List SourceRecord) (is ps : List ℕ) (q : K)
      → AreReady (pipelines sources) ps
      → Given (pipelines sources) (evaluate_sources sys sources is ps q)
  unfolding evaluate_sources
  evaluate_sources-Given sources [] ps q h =
      λ xs e. subst (AreReady (pipelines sources)) (success-eq e) h
  evaluate_sources-Given sources (i ∷ is) ps q h =
      evaluate_source-Given sources i (evaluate_sources sys sources is) (get_elem? sources i) ps q
        refl h (evaluate_sources-Given sources is)

  -- A turn of a loop with these pipelines.
  abbrev Told : List ℕ → Result Turn × EventLoop × K → Type 0
  Told ss r =
      (t : Turn) → r.0 ≡ success t → AreReady ss t.ready_pipelines × (t.interrupted_count < 64)

  after_evaluate-Told :
      (ss : List ℕ) (control : Bool) (count : ℕ) (l : EventLoop) (r : Result (List ℕ) × K)
      → count < 64
      → Given ss r
      → Told ss (after_evaluate sys control count l r)
  unfolding after_evaluate
  after_evaluate-Told ss control count l (failure s, q) n g = λ t e. absurd (ground (arith, e))
  after_evaluate-Told ss control count l (success ps, q) n g = λ t e.
      subst (λ (x : Turn). AreReady ss x.ready_pipelines × (x.interrupted_count < 64))
        (success-eq e) (g ps refl, n)

  after_marks-Told :
      (ss : List ℕ) (count : ℕ) (l : EventLoop) (r : Option Status × Marks × K)
      → count < 64
      → Of ss r
      → Told ss (after_marks sys count l r)
  unfolding after_marks
  after_marks-Told ss count l (some s, m, q) n h = λ t e. absurd (ground (arith, e))
  after_marks-Told ss count l (none, m, q) n h =
      after_evaluate-Told ss m.control_wakeup count (record l { sources = m.sources })
        (evaluate_sources sys m.sources m.ready [] q) n
        (subst (λ x. Given x (evaluate_sources sys m.sources m.ready [] q)) h
          (evaluate_sources-Given m.sources m.ready [] q (record { known = tt; once = tt })))

  after_events-Told :
      (event : ℕ) (l : EventLoop) (r : Result (List EpollEvent × ℕ) × K)
      → ((es : List EpollEvent) (n : ℕ) → r.0 ≡ success (es, n) → n < 64)
      → Told (pipelines l.sources) (after_events sys event l r)
  unfolding after_events
  after_events-Told event l (failure s, q) f = λ t e. absurd (ground (arith, e))
  after_events-Told event l (success (es, n), q) f =
      let m : Marks = record {
        control_wakeup = false;
        sources = clear_sources l.sources;
        ready = [];
      } in
      after_marks-Told (pipelines l.sources) n l (mark_events sys event l.tokens es m q)
        (f es n refl)
        (mark_events-Of (pipelines l.sources) event l.tokens es m q
          (pipelines-clear_sources l.sources))

  wait_on-Told :
      (epoll event : Option ℕ) (l : EventLoop) (q : K)
      → Told (pipelines l.sources) (wait_on sys epoll event l q)
  unfolding wait_on
  wait_on-Told (some epoll) (some event) l q =
      after_events-Told event l (wait_events sys epoll (length l.registered_fds + 1) 64 0 q)
        (λ es n e.
          omega (arith, wait_events-count epoll (length l.registered_fds + 1) 64 0 q es n e))
  wait_on-Told none event l q = λ t e. absurd (ground (arith, e))
  wait_on-Told (some epoll) none l q = λ t e. absurd (ground (arith, e))

  -- A wait that succeeds had fewer than 64 interruptions, and each pipeline that it tells to be ready
  -- is that of a registered source and is told once.
  pub wait_once-AreReady :
      (l : EventLoop) (q : K) (t : Turn)
      → (wait_once sys l q).0 ≡ success t
      → AreReady (pipelines l.sources) t.ready_pipelines × (t.interrupted_count < 64)
  unfolding wait_once
  wait_once-AreReady l q t e = wait_on-Told l.epoll_fd l.event_fd _ q t e
