-- ===== src/Media/Queue/Trace.antt =====
-- The values that pass through a queue of include/eavp/media/queue.hpp.
pub mod Accounts
pub mod Lossless
use mathlib.Core.List.{Sublist, append-nil, append_assoc, sublist-append_left}
use mathlib.Core.List.Sublist
use mathlib.Core.Path.{subst}
use native.Mathlib.Nat.{zero-add}
use eavp.Base.{
  ℕ, suc, ◌+◌, ◌≤◌, ◌<◌, ◌^◌, ◌≡◌, refl, sym, tests, ==_iff, ap, ◌∙◌, Bool, true, false, List, [],
  ◌∷◌, ◌++◌, ◌==◌, Option, none, some, arith, length, length-append, Bool-cases, inl, inr,
  if◌then◌else◌, ◌⊎◌,
}
use eavp.Status.{Result, success, failure, Status, is_ok, ok_status}
use eavp.Media.Queue.{
  Queue, OverflowPolicy, block, new_queue, push, pop, store, pop_front, is_block, is_drop_newest,
  preflight_push, drop_one, pop_values,
}

pub data Op (A : Type 0) : Type 0 where
  pushes : Option A → Op A
  pops : Op A

-- A queue with the values that its pushes accepted and its pops gave out, oldest first.
pub record Trace (A : Type 0) : Type 0 where
  pub queue : Queue A
  pub accepted : List A
  pub taken : List A

module _ {A : Type 0} where
  pub pushed : Option A → Status × Queue A → Trace A → Trace A
  pushed none r t = record t { queue = r.1 }
  pushed (some v) r t = record t {
    queue = r.1;
    accepted = (if is_ok r.0 then t.accepted ++ (v ∷ []) else t.accepted);
  }

  pub popped : Result A × Queue A → Trace A → Trace A
  popped (success v, q) t = record t { queue = q; taken = t.taken ++ (v ∷ []) }
  popped (failure s, q) t = record t { queue = q }

  pub step : Op A → Trace A → Trace A
  unfolding pushed popped
  step (pushes v) t = pushed v (push v t.queue) t
  step pops t = popped (pop t.queue) t

  pub trace : List (Op A) → Trace A → Trace A
  unfolding step
  trace [] t = t
  trace (o ∷ os) t = trace os (step o t)

  pub new_trace : ℕ → OverflowPolicy → Trace A
  unfolding new_queue
  new_trace c p = record { queue = new_queue c p; accepted = []; taken = [] }
