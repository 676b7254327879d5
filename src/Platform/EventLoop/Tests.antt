-- ===== src/Platform/EventLoop/Tests.antt =====
-- Runs of the event loop of src/platform/linux/linux_event_loop.cpp: one pipeline with one descriptor,
-- and a wait that is interrupted once.
use eavp.Base.{ℕ, zero, suc, ◌==◌, ◌<◌, ◌≡◌, refl, true, false, [], ◌∷◌, none, some}
use eavp.Base.Int.{pos}
use eavp.Status.{ok_status, success}
use eavp.Platform.EventLoop.{System, EventLoop, new_loop, initialize, system_error}
use eavp.Platform.EventLoop.Events.{PollEvents, EpollEvents, no_events}
use eavp.Platform.EventLoop.Register.{
  register_source, committed, check_descriptors, rollback_registration,
}
use eavp.Platform.EventLoop.Register.Atomic.{register_source-Atomic}
use eavp.Platform.EventLoop.Register.Outcome.{Atomic}
use eavp.Platform.EventLoop.Wait.{Turn, wait_once, clear_sources, find_token}
use eavp.Platform.EventLoop.Wait.Ready.{AreReady, wait_once-AreReady}

abbrev reading : PollEvents
reading = record no_events { read_normal = true }

abbrev readable : EpollEvents
readable = record { read = true; write = false; priority = false; error = false; hang_up = false }

-- Something to read and a hang-up that was not requested.
abbrev hung_up : EpollEvents
hung_up = record readable { hang_up = true }

-- A system whose state counts the waits: the first is interrupted.
abbrev sys : System ℕ
sys = record {
  epoll_create = λ q. (some 3, q);
  create_event_fd = λ q. (some 4, q);
  epoll_add = λ epoll fd events token q. (true, q);
  epoll_remove = λ epoll fd q. (true, q);
  epoll_wait_events = λ epoll capacity q. elim q [
    | zero ↦ (none, 1)
    | suc n ↦ (
      some (record { token = 0; events = readable } ∷ record { token = 1; events = readable } ∷ []),
      suc n,
    )
  ];
  read_event_fd = λ fd q. (true, q);
  write_event_fd = λ fd q. (true, q);
  close_fd = λ fd q. (true, q);
  last_error = λ q. pos 4;
  poll_descriptors =
      λ s q. (success (record { fd = pos 9; events = reading; revents = no_events } ∷ []), q);
  evaluate_poll_events = λ s ds q. (success true, q);
}

abbrev opened : EventLoop
opened = record new_loop { epoll_fd = some 3; event_fd = some 4 }

initialize_opens : initialize sys new_loop 0 ≡ (ok_status, opened, 0)
unfolding initialize
initialize_opens = refl

register_source-Atomic_example :
    Atomic sys opened (some 1) (some 2) 0 (register_source sys opened (some 1) (some 2) 0)
register_source-Atomic_example =
    register_source-Atomic sys opened (λ s q t e. absurd (cc)) (some 1) (some 2) 0

-- A system that takes one descriptor of two: its state is the last token that it took.
abbrev full_sys : System ℕ
full_sys = record sys {
  epoll_add = λ epoll fd events token q. (token == 1, token);
  epoll_remove = λ epoll fd q. (true, 0);
  poll_descriptors = λ s q. (
    success (
        record { fd = pos 9; events = reading; revents = no_events }
        ∷ record { fd = pos 8; events = reading; revents = no_events }
        ∷ []),
    q,
  );
}

second_is_taken_back :
    register_source full_sys opened (some 1) (some 2) 0
    ≡ (system_error "无法向 Linux epoll 注册 descriptor" "epoll_ctl" (pos 4), opened, 0)
unfolding register_source check_descriptors rollback_registration
second_is_taken_back = refl

abbrev registered : EventLoop
registered = record opened {
  next_token = 2;
  sources =
      record {
        pipeline = 1;
        source = 2;
        descriptors = record { fd = pos 9; events = reading; revents = no_events } ∷ [];
        tokens = 1 ∷ [];
      }
      ∷ [];
  tokens = (1, 0, 0) ∷ [];
  registered_fds = pos 9 ∷ [];
  registered_sources = 2 ∷ [];
}

source_registers : (register_source sys opened (some 1) (some 2) 0).1 ≡ registered
unfolding register_source committed check_descriptors
source_registers = refl

abbrev turn : Turn
turn = record {
  ready_pipelines = 1 ∷ [];
  wakeup_count = 1;
  interrupted_count = 1;
  control_wakeup = true;
}

wait_tells : (wait_once sys registered 0).0 ≡ success turn
unfolding wait_once clear_sources find_token
wait_tells = refl

wait_once-AreReady_example : AreReady (1 ∷ []) (1 ∷ []) × (1 < 64)
wait_once-AreReady_example = wait_once-AreReady sys registered 0 turn wait_tells
