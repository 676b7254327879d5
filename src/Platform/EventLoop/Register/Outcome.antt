-- ===== src/Platform/EventLoop/Register/Outcome.antt =====
-- How `register_source` of src/platform/linux/linux_event_loop.cpp ends.
use eavp.Base.{
  ℕ, ◌<◌, true, false, List, [], ◌∷◌, ◌++◌, map, length, Option, none, some, ◌≡◌, ◌⊎◌, All,
}
use eavp.Status.{
  Status, ok_status, is_ok, bare_status, invalid_state, invalid_argument, already_exists, success,
  failure,
}
use eavp.Platform.EventLoop.{System, EventLoop, PollFd, has_source, system_error}
use eavp.Platform.EventLoop.Register.{is_missing}
use eavp.Platform.EventLoop.Register.Epoll.{onto, Taken, entered, Refused, Undone}
use eavp.Platform.EventLoop.Register.Descriptors.{IsNew, Apart}
use eavp.Platform.EventLoop.Register.Tokens.{Counted, Targeted, clear}

module _ {K : Type 0} (sys : System K) (l : EventLoop) where
  -- A registration that was done from the state `q` of the system.
  pub record Done (pipeline source : Option ℕ) (q : K) (r : Status × EventLoop × K) : Type 0 where
    pub of_pipeline : ℕ
    pub of_source : ℕ
    pub epoll : ℕ
    pub descriptors : List PollFd
    pub asked : K
    pub tokens : List ℕ
    pub entries : List (ℕ × ℕ × ℕ)
    pub last : ℕ
    pub pipeline_there : pipeline ≡ some of_pipeline
    pub source_there : source ≡ some of_source
    pub not_shut : l.invalidated ≡ false
    pub epoll_there : l.epoll_fd ≡ some epoll
    pub event_there : is_missing l.event_fd ≡ false
    pub source_new : has_source of_source l.registered_sources ≡ false
    pub answer : sys.poll_descriptors of_source q ≡ (success descriptors, asked)
    pub some_there : 0 < length descriptors
    pub all_new : All (IsNew l.registered_fds) descriptors
    pub apart : Apart descriptors
    pub counted : Counted l.next_token tokens last
    pub targeted : Targeted (length l.sources) 0 tokens entries
    pub taken : Taken sys epoll tokens descriptors asked
    pub done : r ≡ (
      ok_status,
      record l {
        next_token = last;
        sources =
            l.sources
            ++ record {
              pipeline = of_pipeline;
              source = of_source;
              descriptors = map clear descriptors;
              tokens = tokens;
            }
              ∷ [];
        tokens = l.tokens ++ entries;
        registered_fds = l.registered_fds ++ map (λ (d : PollFd). d.fd) descriptors;
        registered_sources = l.registered_sources ++ of_source ∷ [];
      },
      entered sys epoll tokens descriptors asked,
    )

  -- Why a registration fails before any call of the epoll, its status, and the system then.
  pub data Refusal (pipeline source : Option ℕ) (q : K) : Status → K → Type 0 where
    closed :
        (l.invalidated ≡ true) ⊎ (l.epoll_fd ≡ none) ⊎ (is_missing l.event_fd ≡ true)
        → Refusal pipeline source q (bare_status invalid_state) q
    null :
        (pipeline ≡ none) ⊎ (source ≡ none)
        → Refusal pipeline source q (bare_status invalid_argument) q
    known :
        (s : ℕ)
        → source ≡ some s
        → has_source s l.registered_sources ≡ true
        → Refusal pipeline source q (bare_status already_exists) q
    unanswered :
        (s : ℕ) (t : Status) (asked : K)
        → source ≡ some s
        → sys.poll_descriptors s q ≡ (failure t, asked)
        → Refusal pipeline source q t asked
    nothing :
        (s : ℕ) (asked : K)
        → source ≡ some s
        → sys.poll_descriptors s q ≡ (success [], asked)
        → Refusal pipeline source q (bare_status invalid_argument) asked
    unfit :
        (s : ℕ) (t : Status) (asked : K) (ds : List PollFd)
        → source ≡ some s
        → sys.poll_descriptors s q ≡ (success ds, asked)
        → ¬ (All (IsNew l.registered_fds) ds × Apart ds)
        → Refusal pipeline source q t asked

  -- A failure before any call of the epoll.
  pub record Untouched (pipeline source : Option ℕ) (q : K) (r : Status × EventLoop × K)
      : Type 0 where
    pub fails : is_ok r.0 ≡ false
    pub same : r.1 ≡ l
    pub because : Refusal pipeline source q r.0 r.2

  -- A descriptor of the source's answer that the epoll refused: those that it had taken are removed,
  -- the last one first.
  pub record TakenBack (source : Option ℕ) (q : K) (r : Status × EventLoop × K) : Type 0 where
    pub of_source : ℕ
    pub epoll : ℕ
    pub descriptors : List PollFd
    pub asked : K
    pub source_there : source ≡ some of_source
    pub epoll_there : l.epoll_fd ≡ some epoll
    pub answer : sys.poll_descriptors of_source q ≡ (success descriptors, asked)
    pub stops : Refused sys epoll l.next_token descriptors asked
    pub told :
        r.0 ≡ system_error "无法向 Linux epoll 注册 descriptor" "epoll_ctl" (sys.last_error stops.after)
    pub undone : Undone sys epoll l (onto stops.taken []) stops.after (r.1, r.2)

  abbrev pub Atomic : Option ℕ → Option ℕ → K → Status × EventLoop × K → Type 0
  Atomic p s q r = Done p s q r ⊎ Untouched p s q r ⊎ TakenBack s q r
