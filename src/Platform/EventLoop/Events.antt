-- ===== src/Platform/EventLoop/Events.antt =====
-- The events of poll and epoll in src/platform/linux/linux_event_loop.cpp, as sets.
use eavp.Base.{Bool, false, not, ◌&&◌, ◌||◌}

-- The bits of `short events` that the program names, and whether another one is set.
pub record PollEvents : Type 0 where
  pub read : Bool
  pub read_normal : Bool
  pub write : Bool
  pub priority : Bool
  pub error : Bool
  pub hang_up : Bool
  pub other : Bool

-- The bits of the events of an epoll that the program names.
pub record EpollEvents : Type 0 where
  pub read : Bool
  pub write : Bool
  pub priority : Bool
  pub error : Bool
  pub hang_up : Bool

abbrev pub no_events : PollEvents
no_events = record {
  read = false;
  read_normal = false;
  write = false;
  priority = false;
  error = false;
  hang_up = false;
  other = false;
}

-- `requested == 0`.
abbrev pub is_empty : PollEvents → Bool
is_empty e =
    not (e.read || e.read_normal || e.write || e.priority || e.error || e.hang_up || e.other)

-- `(requested & ~allowed) != 0`.
abbrev pub has_others : PollEvents → Bool
has_others e = e.error || e.hang_up || e.other

-- `epoll_interests`.
unfoldable pub epoll_interests : PollEvents → EpollEvents
epoll_interests e = record {
  read = e.read || e.read_normal;
  write = e.write;
  priority = e.priority;
  error = false;
  hang_up = false;
}

-- `poll_events`.
unfoldable pub poll_events : EpollEvents → PollEvents
poll_events e = record {
  read = e.read;
  read_normal = false;
  write = e.write;
  priority = e.priority;
  error = e.error;
  hang_up = e.hang_up;
  other = false;
}

-- `requested_poll_events`; what can be read is told in the words of the request.
unfoldable pub requested_poll_events : EpollEvents → PollEvents → PollEvents
unfolding poll_events
requested_poll_events e requested = record (poll_events e) {
  read = e.read && (requested.read || not requested.read_normal);
  read_normal = e.read && requested.read_normal;
}

-- `|=` of two sets of events.
abbrev pub union : PollEvents → PollEvents → PollEvents
union e f = record {
  read = e.read || f.read;
  read_normal = e.read_normal || f.read_normal;
  write = e.write || f.write;
  priority = e.priority || f.priority;
  error = e.error || f.error;
  hang_up = e.hang_up || f.hang_up;
  other = e.other || f.other;
}

-- Whether an epoll that was asked for `interests` reports only those, with errors and hang-ups, which
-- it reports unasked.
abbrev pub is_asked : EpollEvents → EpollEvents → Bool
is_asked interests e =
    (interests.read || not e.read)
    && (interests.write || not e.write)
    && (interests.priority || not e.priority)

-- What a poll of `requested` answers when the events `e` happen: those of them that were requested,
-- and errors and hang-ups in any case. Both words for reading stand for the same event.
abbrev pub polled : EpollEvents → PollEvents → PollEvents
polled e requested = record {
  read = requested.read && e.read;
  read_normal = requested.read_normal && e.read;
  write = requested.write && e.write;
  priority = requested.priority && e.priority;
  error = e.error;
  hang_up = e.hang_up;
  other = false;
}
