-- ===== src/Platform/EventLoop/Wait.antt =====
-- `wait_once` of src/platform/linux/linux_event_loop.cpp.
pub mod Ready
use eavp.Base.{
  ℕ, zero, suc, ◌+◌, Bool, true, false, not, ◌&&◌, ◌||◌, List, [], ◌∷◌, ◌++◌, Option, none, some,
  if◌then◌else◌, ◌==◌, ltb, length, get_elem?,
}
use eavp.Base.Int.{ℤ, pos, int_eq}
use eavp.Status.{Status, bare_status, io_error, invalid_state, Result, success, failure}
use eavp.Platform.EventLoop.{
  System, EventLoop, SourceRecord, PollFd, EpollEvent, WaitFailureOrigin, has_source, system_error,
}
use eavp.Platform.EventLoop.Events.{EpollEvents, no_events, requested_poll_events, union}

-- `LinuxEventLoopTurn`.
pub record Turn : Type 0 where
  pub ready_pipelines : List ℕ
  pub wakeup_count : ℕ
  pub interrupted_count : ℕ
  pub control_wakeup : Bool

-- `EINTR` of Linux.
abbrev pub interrupted : ℤ
interrupted = pos 4

-- A list with one element changed, if it is there.
pub update_at : {A : Type 0} → ℕ → (A → A) → List A → List A
update_at i f [] = []
update_at zero f (x ∷ xs) = f x ∷ xs
update_at (suc i) f (x ∷ xs) = x ∷ update_at i f xs

-- `insert` into the set of the sources that are ready, kept in rising order.
pub insert_index : ℕ → List ℕ → List ℕ
insert_index i [] = i ∷ []
insert_index i (j ∷ js) =
    let rest = j ∷ insert_index i js in
    if i == j then j ∷ js else if ltb i j then i ∷ j ∷ js else rest

-- `tokens.find(token)`.
unfoldable pub find_token : ℕ → List (ℕ × ℕ × ℕ) → Option (ℕ × ℕ)
find_token t [] = none
find_token t ((u, i, j) ∷ m) = let rest = find_token t m in if t == u then some (i, j) else rest

clear_descriptors : List PollFd → List PollFd
clear_descriptors [] = []
clear_descriptors (d ∷ ds) = record d { revents = no_events } ∷ clear_descriptors ds

-- The loops that set all `revents` to 0.
unfoldable pub clear_sources : List SourceRecord → List SourceRecord
unfolding clear_descriptors
clear_sources [] = []
clear_sources (s ∷ ss) =
    record s { descriptors = clear_descriptors s.descriptors } ∷ clear_sources ss

-- The events of a token for a descriptor.
unfoldable pub mark : EpollEvents → PollFd → PollFd
unfolding requested_poll_events
mark e d = record d { revents = union d.revents (requested_poll_events e d.events) }

unfoldable pub mark_source : EpollEvents → ℕ → SourceRecord → SourceRecord
unfolding mark update_at
mark_source e j s = record s { descriptors = update_at j (mark e) s.descriptors }

-- What the loop over the events changes: whether the control event was seen, the sources, and the
-- sources that are ready.
pub record Marks : Type 0 where
  pub control_wakeup : Bool
  pub sources : List SourceRecord
  pub ready : List ℕ

mark_target : EpollEvents → Option (ℕ × ℕ) → Marks → Marks
unfolding mark_source update_at insert_index
mark_target e none m = m
mark_target e (some (i, j)) m = record m {
  sources = update_at i (mark_source e j) m.sources;
  ready = insert_index i m.ready;
}

module _ {K : Type 0} (sys : System K) where
  -- What follows a wait of the system; an interruption is counted and the wait made `again`.
  after_wait :
      (ℕ → K → Result (List EpollEvent × ℕ) × K)
      → ℕ
      → Option (List EpollEvent) × K
      → Result (List EpollEvent × ℕ) × K
  after_wait again count (some events, q) = (success (events, count), q)
  after_wait again count (none, q) =
      if int_eq (sys.last_error q) interrupted
      then again (count + 1) q
      else (failure (system_error "Linux Reactor 等待失败" "epoll_wait" (sys.last_error q)), q)

  -- The loop over `epoll_wait_events`, which ends with the events and the number of interruptions, or
  -- with a failure at the first other error, and when no interruption is `left`.
  unfoldable pub wait_events : ℕ → ℕ → ℕ → ℕ → K → Result (List EpollEvent × ℕ) × K
  unfolding after_wait
  wait_events epoll capacity zero count q =
      (failure (system_error "Linux Reactor 等待被连续信号中断" "epoll_wait" interrupted), q)
  wait_events epoll capacity (suc left) count q =
      after_wait (wait_events epoll capacity left) count (sys.epoll_wait_events epoll capacity q)

  -- The control event, which is read.
  read_control : Marks → Bool × K → Option Status × Marks × K
  read_control m (true, q) = (none, record m { control_wakeup = true }, q)
  read_control m (false, q) =
      (some (system_error "无法读取 Linux eventfd" "read(eventfd)" (sys.last_error q)), m, q)

  -- One round of the loop over the events; a failure is a return.
  mark_event : ℕ → List (ℕ × ℕ × ℕ) → EpollEvent → Marks → K → Option Status × Marks × K
  unfolding mark_target find_token read_control
  mark_event event tokens e m q =
      if not (e.token == 0)
      then (none, mark_target e.events (find_token e.token tokens) m, q)
      else if m.control_wakeup
      then (none, m, q)
      else read_control m (sys.read_event_fd event q)

  next_event :
      (Marks → K → Option Status × Marks × K)
      → Option Status × Marks × K
      → Option Status × Marks × K
  next_event go (some s, m, q) = (some s, m, q)
  next_event go (none, m, q) = go m q

  -- The loop over the events.
  unfoldable pub mark_events :
      ℕ → List (ℕ × ℕ × ℕ) → List EpollEvent → Marks → K → Option Status × Marks × K
  unfolding next_event mark_event
  mark_events event tokens [] m q = (none, m, q)
  mark_events event tokens (e ∷ es) m q =
      next_event (mark_events event tokens es) (mark_event event tokens e m q)

  add_ready : List ℕ → ℕ → Bool → List ℕ
  add_ready pipelines p true = if has_source p pipelines then pipelines else pipelines ++ p ∷ []
  add_ready pipelines p false = pipelines

  -- What a source answers, and the rest of the loop.
  evaluated :
      (List ℕ → K → Result (List ℕ) × K) → List ℕ → ℕ → Result Bool × K → Result (List ℕ) × K
  unfolding add_ready has_source
  evaluated go pipelines p (failure s, q) = (failure s, q)
  evaluated go pipelines p (success ready, q) = go (add_ready pipelines p ready) q

  evaluate_source :
      (List ℕ → K → Result (List ℕ) × K) → Option SourceRecord → List ℕ → K → Result (List ℕ) × K
  unfolding evaluated
  evaluate_source go none pipelines q = go pipelines q
  evaluate_source go (some s) pipelines q =
      evaluated go pipelines s.pipeline (sys.evaluate_poll_events s.source s.descriptors q)

  -- The loop over the sources that are ready; a failure is a return.
  unfoldable pub evaluate_sources : List SourceRecord → List ℕ → List ℕ → K → Result (List ℕ) × K
  unfolding evaluate_source
  evaluate_sources sources [] pipelines q = (success pipelines, q)
  evaluate_sources sources (i ∷ is) pipelines q =
      evaluate_source (evaluate_sources sources is) (get_elem? sources i) pipelines q

  abbrev failed : WaitFailureOrigin → EventLoop → EventLoop
  failed origin l = record l { wait_failure_origin = origin }

  after_evaluate : Bool → ℕ → EventLoop → Result (List ℕ) × K → Result Turn × EventLoop × K
  after_evaluate control count l (failure s, q) =
      (failure s, failed WaitFailureOrigin.wait_source l, q)
  after_evaluate control count l (success pipelines, q) = (
    success (record {
      ready_pipelines = pipelines;
      wakeup_count = 1;
      interrupted_count = count;
      control_wakeup = control;
    }),
    l,
    q,
  )

  after_marks : ℕ → EventLoop → Option Status × Marks × K → Result Turn × EventLoop × K
  unfolding after_evaluate evaluate_sources
  after_marks count l (some s, m, q) =
      (failure s, failed WaitFailureOrigin.runtime (record l { sources = m.sources }), q)
  after_marks count l (none, m, q) =
      after_evaluate m.control_wakeup count (record l { sources = m.sources })
        (evaluate_sources m.sources m.ready [] q)

  after_events : ℕ → EventLoop → Result (List EpollEvent × ℕ) × K → Result Turn × EventLoop × K
  unfolding after_marks mark_events clear_sources
  after_events event l (failure s, q) = (failure s, failed WaitFailureOrigin.runtime l, q)
  after_events event l (success (events, count), q) = after_marks count l (
      mark_events event l.tokens events
        (record { control_wakeup = false; sources = clear_sources l.sources; ready = [] }) q)

  wait_on : Option ℕ → Option ℕ → EventLoop → K → Result Turn × EventLoop × K
  unfolding after_events wait_events
  wait_on (some epoll) (some event) l q =
      after_events event l (wait_events epoll (length l.registered_fds + 1) 64 0 q)
  wait_on _ _ l q = (failure (bare_status invalid_state), failed WaitFailureOrigin.runtime l, q)

  -- `LinuxEventLoop::wait_once`.
  unfoldable pub wait_once : EventLoop → K → Result Turn × EventLoop × K
  unfolding wait_on
  wait_once l q = wait_on l.epoll_fd l.event_fd (failed WaitFailureOrigin.no_failure l) q
