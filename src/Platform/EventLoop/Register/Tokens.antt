-- ===== src/Platform/EventLoop/Register/Tokens.antt =====
-- The tokens of a registration in src/platform/linux/linux_event_loop.cpp, and what a loop gains with them.
use eavp.Base.{ℕ, suc, ◌+◌, ◌%◌, ◌^◌, true, false, List, [], ◌∷◌, map, ◌≡◌, refl, ap}
use eavp.Platform.EventLoop.{PollFd}
use eavp.Platform.EventLoop.Events.{no_events}
use eavp.Platform.EventLoop.Register.{fds, cleared, targets, token_after, new_tokens}

-- The tokens are consecutive numbers of 64 bits from `next` on, and `last` is the one after them.
pub Counted : ℕ → List ℕ → ℕ → Type 0
Counted next [] last = last ≡ next
Counted next (t ∷ ts) last = (t ≡ next) × Counted ((next + 1) % 2 ^ 64) ts last

-- The entries lead each token to its place in the source at `index`, from the place `i` on.
pub Targeted : ℕ → ℕ → List ℕ → List (ℕ × ℕ × ℕ) → Type 0
Targeted index i [] [] = Unit
Targeted index i (t ∷ ts) (e ∷ es) = (e ≡ (t, index, i)) × Targeted index (suc i) ts es
Targeted index i [] (e ∷ es) = false ≡ true
Targeted index i (t ∷ ts) [] = false ≡ true

pub new_tokens-Counted :
    (next : ℕ) (ds : List PollFd) → Counted next (new_tokens next ds) (token_after next ds)
unfolding new_tokens token_after Counted
new_tokens-Counted next [] = refl
new_tokens-Counted next (d ∷ ds) = (refl, new_tokens-Counted ((next + 1) % 2 ^ 64) ds)

pub targets-Targeted : (index i : ℕ) (ts : List ℕ) → Targeted index i ts (targets index i ts)
unfolding targets Targeted
targets-Targeted index i [] = tt
targets-Targeted index i (t ∷ ts) = (refl, targets-Targeted index (suc i) ts)

pub fds-map : (ds : List PollFd) → fds ds ≡ map (λ (d : PollFd). d.fd) ds
unfolding fds
fds-map [] = refl
fds-map (d ∷ ds) = ap (λ xs. d.fd ∷ xs) (fds-map ds)

abbrev pub clear : PollFd → PollFd
clear d = record d { revents = no_events }

pub cleared-map : (ds : List PollFd) → cleared ds ≡ map clear ds
unfolding cleared
cleared-map [] = refl
cleared-map (d ∷ ds) = ap (λ xs. clear d ∷ xs) (cleared-map ds)
