-- ===== src/Platform/EventLoop/Register.antt =====
-- `register_source` of src/platform/linux/linux_event_loop.cpp.
pub mod Atomic
pub mod Descriptors
pub mod Epoll
pub mod Outcome
pub mod Tokens
use eavp.Base.{
  ℕ, zero, suc, ◌+◌, ◌%◌, ◌^◌, Bool, true, false, not, ◌&&◌, ◌||◌, List, [], ◌∷◌, ◌++◌, Option,
  none, some, if◌then◌else◌, length,
}
use eavp.Base.Int.{ℤ, is_negative}
use eavp.Status.{
  Status, ok_status, bare_status, is_ok, invalid_state, invalid_argument, already_exists, Result,
  success, failure,
}
use eavp.Platform.EventLoop.{
  System, EventLoop, SourceRecord, PollFd, has_fd, has_source, system_error, invalidate,
}
use eavp.Platform.EventLoop.Events.{PollEvents, no_events, is_empty, has_others, epoll_interests}

abbrev pub is_missing : Option ℕ → Bool
is_missing none = true
is_missing (some fd) = false

-- The loop over the descriptors; `seen` are those of `local_fds`.
unfoldable pub check_descriptors : List ℤ → List ℤ → List PollFd → Status
unfolding has_fd
check_descriptors registered seen [] = ok_status
check_descriptors registered seen (d ∷ ds) =
    let rest = check_descriptors registered (d.fd ∷ seen) ds in
    if is_negative d.fd || is_empty d.events || has_others d.events
    then bare_status invalid_argument
    else if has_fd d.fd seen || has_fd d.fd registered
    then bare_status already_exists
    else rest

-- A new token for each descriptor.
unfoldable pub new_tokens : ℕ → List PollFd → List ℕ
new_tokens next [] = []
new_tokens next (d ∷ ds) = next ∷ new_tokens ((next + 1) % 2 ^ 64) ds

-- `staged_next_token` after the loop.
unfoldable pub token_after : ℕ → List PollFd → ℕ
token_after next [] = next
token_after next (d ∷ ds) = token_after ((next + 1) % 2 ^ 64) ds

-- The entries of the map of tokens for the descriptors from `index` on of a source.
unfoldable pub targets : ℕ → ℕ → List ℕ → List (ℕ × ℕ × ℕ)
targets source_index index [] = []
targets source_index index (t ∷ ts) = (t, source_index, index) ∷ targets source_index (suc index) ts

pub fds : List PollFd → List ℤ
fds [] = []
fds (d ∷ ds) = d.fd ∷ fds ds

pub cleared : List PollFd → List PollFd
cleared [] = []
cleared (d ∷ ds) = record d { revents = no_events } ∷ cleared ds

-- The loop that registers a source, committed.
unfoldable pub committed : EventLoop → ℕ → ℕ → List PollFd → EventLoop
unfolding new_tokens token_after targets fds cleared
committed l pipeline source ds = record l {
  next_token = token_after l.next_token ds;
  sources =
      l.sources
      ++ record {
        pipeline = pipeline;
        source = source;
        descriptors = cleared ds;
        tokens = new_tokens l.next_token ds;
      }
        ∷ [];
  tokens = l.tokens ++ targets (length l.sources) 0 (new_tokens l.next_token ds);
  registered_fds = l.registered_fds ++ fds ds;
  registered_sources = l.registered_sources ++ source ∷ [];
}

module _ {K : Type 0} (sys : System K) where
  -- `rollback_registration`, from the last descriptor that was added; `complete` so far.
  remove_added : ℕ → List PollFd → Bool → K → Bool × K
  remove_added epoll [] complete q = (complete, q)
  remove_added epoll (d ∷ ds) complete q =
      let r = sys.epoll_remove epoll d.fd q in remove_added epoll ds (complete && r.0) r.1

  unfoldable pub rollback_registration : EventLoop → ℕ → List PollFd → K → EventLoop × K
  unfolding remove_added invalidate
  rollback_registration l epoll added q =
      let r = remove_added epoll added true q in if r.0 then (l, r.1) else invalidate sys l r.1

  -- The loop that adds the descriptors to the epoll; `added` are those added, the last one first.
  -- It ends at the first that fails, with the error of that call.
  pub add_each : ℕ → List PollFd → List ℕ → List PollFd → K → Option (List PollFd × ℤ) × K
  add_each epoll added tokens [] q = (none, q)
  add_each epoll added [] (d ∷ ds) q = (none, q)
  add_each epoll added (t ∷ ts) (d ∷ ds) q =
      let r = sys.epoll_add epoll d.fd (epoll_interests d.events) t q in
      let rest = add_each epoll (d ∷ added) ts ds r.1 in
      if r.0 then rest else (some (added, sys.last_error r.1), r.1)

  after_add :
      EventLoop → ℕ → ℕ → ℕ → List PollFd → Option (List PollFd × ℤ) × K → Status × EventLoop × K
  unfolding committed rollback_registration
  after_add l epoll pipeline source ds (none, q) = (ok_status, committed l pipeline source ds, q)
  after_add l epoll pipeline source ds (some (added, error), q) =
      let r = rollback_registration l epoll added q in
      (system_error "无法向 Linux epoll 注册 descriptor" "epoll_ctl" error, r.0, r.1)

  add_checked : EventLoop → ℕ → ℕ → ℕ → List PollFd → K → Status × EventLoop × K
  unfolding after_add add_each new_tokens check_descriptors
  add_checked l epoll pipeline source ds q =
      let checked = check_descriptors l.registered_fds [] ds in
      if not (is_ok checked)
      then (checked, l, q)
      else after_add l epoll pipeline source ds
          (add_each epoll [] (new_tokens l.next_token ds) ds q)

  -- What the source answers.
  add_descriptors : EventLoop → ℕ → ℕ → ℕ → Result (List PollFd) × K → Status × EventLoop × K
  unfolding add_checked
  add_descriptors l epoll pipeline source (failure s, q) = (s, l, q)
  add_descriptors l epoll pipeline source (success [], q) = (bare_status invalid_argument, l, q)
  add_descriptors l epoll pipeline source (success (d ∷ ds), q) =
      add_checked l epoll pipeline source (d ∷ ds) q

  register_on : EventLoop → ℕ → Option ℕ → Option ℕ → K → Status × EventLoop × K
  unfolding add_descriptors has_source
  register_on l epoll (some pipeline) (some source) q =
      if has_source source l.registered_sources
      then (bare_status already_exists, l, q)
      else add_descriptors l epoll pipeline source (sys.poll_descriptors source q)
  register_on l epoll _ _ q = (bare_status invalid_argument, l, q)

  register_open : EventLoop → Option ℕ → Option ℕ → Option ℕ → K → Status × EventLoop × K
  unfolding register_on
  register_open l none pipeline source q = (bare_status invalid_state, l, q)
  register_open l (some epoll) pipeline source q =
      if is_missing l.event_fd
      then (bare_status invalid_state, l, q)
      else register_on l epoll pipeline source q

  -- `LinuxEventLoop::register_source`; `none` is a null pointer.
  unfoldable pub register_source : EventLoop → Option ℕ → Option ℕ → K → Status × EventLoop × K
  unfolding register_open
  register_source l pipeline source q =
      if l.invalidated
      then (bare_status invalid_state, l, q)
      else register_open l l.epoll_fd pipeline source q
