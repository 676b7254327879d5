-- ===== src/Media/Queue.antt =====
-- include/eavp/media/queue.hpp: a FIFO of bounded capacity with a policy for what does not fit. A
-- `std::shared_ptr<const T>` is an optional value; the queue holds only values.
mod Tests
pub mod Trace
use eavp.Base.{
  ℕ, ◌+◌, ◌%◌, ◌^◌, Bool, true, false, ◌&&◌, List, [], ◌∷◌, ◌++◌, Option, none, some, if◌then◌else◌,
  ◌==◌, length,
}
use eavp.Status.{
  Status, ok_status, status, invalid_argument, invalid_state, would_block, not_found, is_ok, Result,
  success, failure,
}

-- `enum class OverflowPolicy`.
pub data OverflowPolicy : Type 0 where
  block drop_oldest drop_newest : OverflowPolicy

-- `class BoundedQueue`; the front of the deque is the head of the list.
pub record Queue (A : Type 0) : Type 0 where
  pub capacity : ℕ
  pub policy : OverflowPolicy
  pub dropped_count : ℕ
  pub values : List A

pub is_block : OverflowPolicy → Bool
is_block block = true
is_block _ = false

pub is_drop_newest : OverflowPolicy → Bool
is_drop_newest drop_newest = true
is_drop_newest _ = false

-- `++dropped_count_`.
abbrev pub drop_one : ℕ → ℕ
drop_one n = (n + 1) % 2 ^ 64

module _ {A : Type 0} where
  -- `BoundedQueue::BoundedQueue`.
  pub new_queue : ℕ → OverflowPolicy → Queue A
  new_queue capacity policy = record {
    capacity = capacity;
    policy = policy;
    dropped_count = 0;
    values = [];
  }

  -- `BoundedQueue::preflight_push`.
  unfoldable pub preflight_push : Option A → Queue A → Status
  unfolding is_block
  preflight_push none q = status invalid_argument "queue value must not be null"
  preflight_push (some v) q =
      if q.capacity == 0
      then status invalid_state "queue capacity must be positive"
      else if length q.values == q.capacity && is_block q.policy
      then status would_block "queue is full"
      else ok_status

  -- `values_.pop_front()`, where there is a value.
  pub pop_front : List A → List A
  pop_front [] = []
  pop_front (x ∷ xs) = xs

  -- The values and the count after a push that the preflight allowed.
  pub store : A → Queue A → Queue A
  unfolding is_drop_newest pop_front
  store v q =
      if length q.values == q.capacity
      then if is_drop_newest q.policy
        then record q { dropped_count = drop_one q.dropped_count }
        else record q {
          values = pop_front q.values ++ (v ∷ []);
          dropped_count = drop_one q.dropped_count;
        }
      else record q { values = q.values ++ (v ∷ []) }

  -- `BoundedQueue::push`.
  unfoldable pub push : Option A → Queue A → Status × Queue A
  unfolding preflight_push store
  push none q = (preflight_push none q, q)
  push (some v) q =
      let preflight = preflight_push (some v) q in
      if is_ok preflight then (ok_status, store v q) else (preflight, q)

  pub pop_values : List A → Queue A → Result A × Queue A
  pop_values [] q = (failure (status not_found "queue is empty"), q)
  pop_values (v ∷ vs) q = (success v, record q { values = vs })

  -- `BoundedQueue::pop`.
  unfoldable pub pop : Queue A → Result A × Queue A
  unfolding pop_values
  pop q = pop_values q.values q
