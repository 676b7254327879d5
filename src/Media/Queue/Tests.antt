-- ===== src/Media/Queue/Tests.antt =====
-- Runs of the queue of include/eavp/media/queue.hpp on small examples.
use mathlib.Core.List.{Sublist}
use eavp.Base.{ℕ, ◌+◌, ◌≤◌, ◌≡◌, List, [], ◌∷◌, ◌++◌, none, some, arith, length}
use eavp.Media.Queue.{block, drop_oldest}
use eavp.Media.Queue.Trace.{Op, pushes, pops, trace, new_trace}
use eavp.Media.Queue.Trace.Accounts.{queue_accounts}
use eavp.Media.Queue.Trace.Lossless.{queue_lossless}

abbrev calls : List (Op ℕ)
calls = pushes (some 1) ∷ pushes (some 2) ∷ pushes none ∷ pushes (some 3) ∷ pops ∷ pops ∷ pops ∷ []

queue_accounts_example :
    let t = trace calls (new_trace 2 drop_oldest) in
    (length t.queue.values ≤ 2)
    × (length t.taken + length t.queue.values + t.queue.dropped_count ≡ length t.accepted)
    × Sublist (t.taken ++ t.queue.values) t.accepted
queue_accounts_example = queue_accounts 2 drop_oldest calls (omega arith)

queue_lossless_example :
    let t = trace calls (new_trace 2 block) in
    (t.taken ++ t.queue.values ≡ t.accepted) × (t.queue.dropped_count ≡ 0)
queue_lossless_example = queue_lossless 2 calls
