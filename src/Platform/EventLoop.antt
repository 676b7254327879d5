-- ===== src/Platform/EventLoop.antt =====
-- src/platform/linux/linux_event_loop.cpp: an event loop over epoll. The system, which
-- linux_runtime_api.hpp calls, and the wait sources of wait_source.hpp are a parameter over their
-- state `K`; their calls return. A pointer to a pipeline or a source is a number.
pub mod Events
pub mod Register
pub mod Wait
mod Tests
use eavp.Base.{
  ℕ, zero, suc, ◌+◌, ◌%◌, ◌^◌, Bool, true, false, not, ◌&&◌, ◌||◌, List, [], ◌∷◌, ◌++◌, Option,
  none, some, String, if◌then◌else◌, ◌==◌, length,
}
use eavp.Base.Int.{ℤ, pos, int_eq, is_negative}
use eavp.Status.{
  Status, StatusCode, ok_status, bare_status, native_status, is_ok, invalid_state, invalid_argument,
  already_exists, io_error, Result, success, failure,
}
use eavp.Platform.EventLoop.Events.{
  PollEvents, EpollEvents, no_events, is_empty, has_others, epoll_interests,
}

-- `struct pollfd`.
pub record PollFd : Type 0 where
  pub fd : ℤ
  pub events : PollEvents
  pub revents : PollEvents

-- `struct epoll_event`.
pub record EpollEvent : Type 0 where
  pub token : ℕ
  pub events : EpollEvents

-- `LinuxRuntimeApi` and `LinuxWaitSource`: the calls that an event loop makes. A negative result of the
-- system is `none` or false.
pub record System (K : Type 0) : Type 0 where
  pub epoll_create : K → Option ℕ × K
  pub create_event_fd : K → Option ℕ × K
  pub epoll_add : ℕ → ℤ → EpollEvents → ℕ → K → Bool × K
  pub epoll_remove : ℕ → ℤ → K → Bool × K
  pub epoll_wait_events : ℕ → ℕ → K → Option (List EpollEvent) × K
  pub read_event_fd : ℕ → K → Bool × K
  pub write_event_fd : ℕ → K → Bool × K
  pub close_fd : ℕ → K → Bool × K
  pub last_error : K → ℤ
  pub poll_descriptors : ℕ → K → Result (List PollFd) × K
  pub evaluate_poll_events : ℕ → List PollFd → K → Result Bool × K

-- `LinuxEventLoopWaitFailureOrigin`.
pub data WaitFailureOrigin : Type 0 where
  no_failure runtime wait_source : WaitFailureOrigin

-- `SourceRecord`.
pub record SourceRecord : Type 0 where
  pub pipeline : ℕ
  pub source : ℕ
  pub descriptors : List PollFd
  pub tokens : List ℕ

-- `LinuxEventLoop::Impl`. The map of tokens has the index of a source and that of a descriptor.
pub record EventLoop : Type 0 where
  pub epoll_fd : Option ℕ
  pub event_fd : Option ℕ
  pub next_token : ℕ
  pub invalidated : Bool
  pub wait_failure_origin : WaitFailureOrigin
  pub sources : List SourceRecord
  pub tokens : List (ℕ × ℕ × ℕ)
  pub registered_fds : List ℤ
  pub registered_sources : List ℕ

-- `LinuxEventLoop::LinuxEventLoop`.
abbrev pub new_loop : EventLoop
new_loop = record {
  epoll_fd = none;
  event_fd = none;
  next_token = 1;
  invalidated = false;
  wait_failure_origin = WaitFailureOrigin.no_failure;
  sources = [];
  tokens = [];
  registered_fds = [];
  registered_sources = [];
}

-- `system_error`.
abbrev pub system_error : String → String → ℤ → Status
system_error message operation error =
    native_status io_error message "linux_runtime" operation error

-- `count(x) != 0`.
pub has_fd : ℤ → List ℤ → Bool
has_fd x [] = false
has_fd x (y ∷ ys) = int_eq x y || has_fd x ys

pub has_source : ℕ → List ℕ → Bool
has_source x [] = false
has_source x (y ∷ ys) = x == y || has_source x ys

module _ {K : Type 0} (sys : System K) where
  -- A call that closes a descriptor that is there.
  close_owned : Option ℕ → K → K
  close_owned none q = q
  close_owned (some fd) q = (sys.close_fd fd q).1

  -- `Impl::invalidate_noexcept`.
  pub invalidate : EventLoop → K → EventLoop × K
  unfolding close_owned
  invalidate l q = (
    record l { invalidated = true; event_fd = none; epoll_fd = none },
    close_owned l.epoll_fd (close_owned l.event_fd q),
  )

  -- `epoll_ctl` on both descriptors of an initialization, which close when it fails.
  add_control : ℕ → ℕ → EventLoop → K → Status × EventLoop × K
  add_control epoll event l q =
      let r =
        sys.epoll_add epoll (pos event)
          (record { read = true; write = false; priority = false; error = false; hang_up = false })
          0 q in
      if r.0 then (ok_status, record l { epoll_fd = some epoll; event_fd = some event }, r.1) else (
        system_error "无法向 Linux epoll 注册 eventfd" "epoll_ctl" (sys.last_error r.1),
        l,
        (sys.close_fd epoll (sys.close_fd event r.1).1).1,
      )

  create_event : ℕ → EventLoop → Option ℕ × K → Status × EventLoop × K
  unfolding add_control
  create_event epoll l (none, q) =
      (system_error "无法创建 Linux eventfd" "eventfd" (sys.last_error q), l, (sys.close_fd epoll q).1)
  create_event epoll l (some event, q) = add_control epoll event l q

  create_both : EventLoop → Option ℕ × K → Status × EventLoop × K
  unfolding create_event
  create_both l (none, q) =
      (system_error "无法创建 Linux epoll 实例" "epoll_create1" (sys.last_error q), l, q)
  create_both l (some epoll, q) = create_event epoll l (sys.create_event_fd q)

  initialize_fds : Option ℕ → Option ℕ → EventLoop → K → Status × EventLoop × K
  unfolding create_both
  initialize_fds (some e) (some f) l q = (ok_status, l, q)
  initialize_fds none none l q = create_both l (sys.epoll_create q)
  initialize_fds _ _ l q = (bare_status invalid_state, l, q)

  -- `LinuxEventLoop::initialize`; the pointer to the system is not null.
  unfoldable pub initialize : EventLoop → K → Status × EventLoop × K
  unfolding initialize_fds
  initialize l q =
      if l.invalidated
      then (bare_status invalid_state, l, q)
      else initialize_fds l.epoll_fd l.event_fd l q

  -- `LinuxEventLoop::wake`.
  pub wake : EventLoop → K → Status × K
  wake l q = elim l.event_fd [
    | none ↦ (bare_status invalid_state, q)
    | some fd ↦
        let r = sys.write_event_fd fd q in
        if r.0
        then (ok_status, r.1)
        else (system_error "无法写入 Linux eventfd" "write(eventfd)" (sys.last_error r.1), r.1)
  ]

  -- One of the two closings of `close`; a failure is kept unless there is an earlier one.
  close_one : String → String → Option ℕ → Status × K → Status × K
  close_one message operation none (first, q) = (first, q)
  close_one message operation (some fd) (first, q) =
      let r = sys.close_fd fd q in
      if not r.0 && is_ok first
      then (system_error message operation (sys.last_error r.1), r.1)
      else (first, r.1)

  -- `LinuxEventLoop::close`.
  unfoldable pub close : EventLoop → K → Status × EventLoop × K
  unfolding close_one
  close l q =
      let r =
        close_one "无法关闭 Linux epoll 实例" "close(epoll)" l.epoll_fd
          (close_one "无法关闭 Linux eventfd" "close(eventfd)" l.event_fd (ok_status, q)) in
      (r.0, record l { event_fd = none; epoll_fd = none }, r.1)
