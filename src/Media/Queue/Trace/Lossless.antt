-- ===== src/Media/Queue/Trace/Lossless.antt =====
-- A queue of include/eavp/media/queue.hpp whose policy is to block: what it accepts comes out again.
use mathlib.Core.List.{append_assoc}
use eavp.Base.{
  ℕ, ◌≡◌, refl, sym, ap, ◌∙◌, true, List, [], ◌∷◌, ◌++◌, ◌==◌, none, some, length, Bool-cases, inl,
  inr,
}
use eavp.Media.Queue.{block, new_queue, push, pop, store, is_block, preflight_push, pop_values}
use eavp.Media.Queue.Trace.{Op, pushes, pops, Trace, pushed, popped, step, trace, new_trace}

module _ {A : Type 0} where
  -- A trace of a blocking queue that has lost nothing.
  record Exact (t : Trace A) : Type 0 where
    blocks : is_block t.queue.policy ≡ true
    undropped : t.queue.dropped_count ≡ 0
    exact : t.taken ++ t.queue.values ≡ t.accepted

  push-Exact : (v : A) (t : Trace A) → Exact t → Exact (pushed (some v) (push (some v) t.queue) t)
  unfolding pushed push preflight_push store is_block
  push-Exact v t k = elim (Bool-cases (t.queue.capacity == 0)) [
    | inl e ↦ rw e k
    | inr e ↦ elim (Bool-cases (length t.queue.values == t.queue.capacity)) [
      | inl f ↦ rw (e, f, k.blocks) k
      | inr f ↦
          rw (e, f)
            (record {
              blocks = k.blocks;
              undropped = k.undropped;
              exact =
                  sym (append_assoc t.taken t.queue.values (v ∷ []))
                  ∙ ap (λ (xs : List A). xs ++ (v ∷ [])) k.exact;
            })
    ]
  ]

  take-Exact :
      (vs : List A) (t : Trace A)
      → t.queue.values ≡ vs
      → Exact t
      → Exact (popped (pop_values vs t.queue) t)
  unfolding popped pop_values
  take-Exact [] t e k = k
  take-Exact (v ∷ vs) t e k = record {
    blocks = k.blocks;
    undropped = k.undropped;
    exact =
        append_assoc t.taken (v ∷ []) vs ∙ ap (λ (xs : List A). t.taken ++ xs) (sym e) ∙ k.exact;
  }

  step-Exact : (o : Op A) (t : Trace A) → Exact t → Exact (step o t)
  unfolding step pushed push preflight_push pop
  step-Exact (pushes none) t k = record {
    blocks = k.blocks;
    undropped = k.undropped;
    exact = k.exact;
  }
  step-Exact (pushes (some v)) t k = push-Exact v t k
  step-Exact pops t k = take-Exact t.queue.values t refl k

  trace-Exact : (ops : List (Op A)) (t : Trace A) → Exact t → Exact (trace ops t)
  unfolding trace
  trace-Exact [] t k = k
  trace-Exact (o ∷ os) t k = trace-Exact os (step o t) (step-Exact o t k)

  new_trace-Exact : (c : ℕ) → Exact (new_trace c block)
  unfolding new_trace new_queue is_block
  new_trace-Exact c = record { blocks = refl; undropped = refl; exact = refl }

  -- A new queue whose policy is to block drops nothing under any pushes and pops: the values popped,
  -- then those it holds, are the accepted ones in their order.
  pub queue_lossless :
      (c : ℕ) (ops : List (Op A))
      → let t = trace ops (new_trace c block) in
        (t.taken ++ t.queue.values ≡ t.accepted) × (t.queue.dropped_count ≡ 0)
  queue_lossless c ops =
      let k = trace-Exact ops (new_trace c block) (new_trace-Exact c) in (k.exact, k.undropped)
