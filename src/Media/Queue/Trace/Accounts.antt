-- ===== src/Media/Queue/Trace/Accounts.antt =====
-- What a queue of include/eavp/media/queue.hpp holds and counts over pushes and pops.
use mathlib.Core.List.{Sublist, append_assoc, sublist-append_left}
use mathlib.Core.List.Sublist
use mathlib.Core.Path.{subst}
use eavp.Base.{
  ℕ, suc, ◌+◌, ◌≤◌, ◌<◌, ◌^◌, ◌≡◌, refl, sym, ap, ◌∙◌, false, List, [], ◌∷◌, ◌++◌, ◌==◌, none, some,
  arith, length, length-append, Bool-cases, inl, inr,
}
use eavp.Media.Queue.{
  OverflowPolicy, new_queue, push, pop, store, pop_front, is_block, is_drop_newest, preflight_push,
  drop_one, pop_values,
}
use eavp.Media.Queue.Trace.{Op, pushes, pops, Trace, pushed, popped, step, trace, new_trace}

module _ {A : Type 0} where
  -- What a trace keeps, after `n` operations on a queue of capacity `c`.
  record Kept (c n : ℕ) (t : Trace A) : Type 0 where
    fits : t.queue.capacity ≡ c
    bounded : length t.queue.values ≤ c
    few : length t.accepted ≤ n
    counted : length t.taken + length t.queue.values + t.queue.dropped_count ≡ length t.accepted
    ordered : Sublist (t.taken ++ t.queue.values) t.accepted

  more : {c n : ℕ} {t : Trace A} → Kept c n t → Kept c (suc n) t
  more k = record {
    fits = k.fits;
    bounded = k.bounded;
    few = omega (arith, k.few);
    counted = k.counted;
    ordered = k.ordered;
  }

  length-snoc : (xs : List A) (v : A) → length (xs ++ (v ∷ [])) ≡ suc (length xs)
  length-snoc xs v = omega (arith, length-append xs (v ∷ []))

  pop_front-sublist : (xs : List A) → Sublist (pop_front xs) xs
  unfolding pop_front
  pop_front-sublist [] = Sublist.refl []
  pop_front-sublist (x ∷ xs) = Sublist.cons x (Sublist.refl xs)

  length-pop_front : (xs : List A) → 0 < length xs → suc (length (pop_front xs)) ≡ length xs
  unfolding pop_front
  length-pop_front [] h = omega arith
  length-pop_front (x ∷ xs) h = refl

  snoc-sublist :
      {xs ys : List A} (v : A) → Sublist xs ys → Sublist (xs ++ (v ∷ [])) (ys ++ (v ∷ []))
  snoc-sublist v h = Sublist.append h (Sublist.refl (v ∷ []))

  -- Where a value goes that a push accepts.
  stored : A → Trace A → Trace A
  stored v t = record t { queue = store v t.queue; accepted = t.accepted ++ (v ∷ []) }

  room-Kept :
      {c n : ℕ} (v : A) (t : Trace A)
      → (length t.queue.values == c) ≡ false
      → Kept c n t
      → Kept c (suc n) (record t {
        queue = record t.queue { values = t.queue.values ++ (v ∷ []) };
        accepted = t.accepted ++ (v ∷ []);
      })
  room-Kept {c} v t e k = record {
    fits = k.fits;
    bounded = ground (arith, k.bounded, e, length-snoc t.queue.values v);
    few = omega (arith, k.few, length-snoc t.accepted v);
    counted = omega (arith, k.counted, length-snoc t.queue.values v, length-snoc t.accepted v);
    ordered =
        subst (λ (xs : List A). Sublist xs (t.accepted ++ (v ∷ [])))
          (append_assoc t.taken t.queue.values (v ∷ [])) (snoc-sublist v k.ordered);
  }

  newest-Kept :
      {c n : ℕ} (v : A) (t : Trace A)
      → suc n < 2 ^ 64
      → Kept c n t
      → Kept c (suc n) (record t {
        queue = record t.queue { dropped_count = drop_one t.queue.dropped_count };
        accepted = t.accepted ++ (v ∷ []);
      })
  newest-Kept v t b k = record {
    fits = k.fits;
    bounded = k.bounded;
    few = omega (arith, k.few, length-snoc t.accepted v);
    counted = omega (arith, k.counted, k.few, length-snoc t.accepted v);
    ordered = Sublist.trans k.ordered (sublist-append_left t.accepted (v ∷ []));
  }

  oldest-Kept :
      {c n : ℕ} (v : A) (t : Trace A)
      → 0 < length t.queue.values
      → suc n < 2 ^ 64
      → Kept c n t
      → Kept c (suc n) (record t {
        queue = record t.queue {
          values = pop_front t.queue.values ++ (v ∷ []);
          dropped_count = drop_one t.queue.dropped_count;
        };
        accepted = t.accepted ++ (v ∷ []);
      })
  oldest-Kept v t l b k = record {
    fits = k.fits;
    bounded = omega (
      arith,
      k.bounded,
      length-snoc (pop_front t.queue.values) v,
      length-pop_front t.queue.values l,
    );
    few = omega (arith, k.few, length-snoc t.accepted v);
    counted = omega (
      arith,
      k.counted,
      k.few,
      length-snoc t.accepted v,
      length-pop_front t.queue.values l,
      length-snoc (pop_front t.queue.values) v,
    );
    ordered =
        subst (λ (xs : List A). Sublist xs (t.accepted ++ (v ∷ [])))
          (append_assoc t.taken (pop_front t.queue.values) (v ∷ []))
          (snoc-sublist v (
            Sublist.trans (Sublist.append (Sublist.refl t.taken) (pop_front-sublist t.queue.values))
              k.ordered));
  }

  push-Kept :
      {c n : ℕ} (v : A) (t : Trace A)
      → suc n < 2 ^ 64
      → Kept c n t
      → Kept c (suc n) (pushed (some v) (push (some v) t.queue) t)
  unfolding pushed push preflight_push store
  push-Kept {c} {n} v t b k = elim (Bool-cases (t.queue.capacity == 0)) [
    | inl e ↦ rw e (more k)
    | inr e ↦ elim (Bool-cases (length t.queue.values == t.queue.capacity)) [
      | inr f ↦ rw (e, f) (room-Kept v t (ground (arith, f, k.fits)) k)
      | inl f ↦ elim (Bool-cases (is_block t.queue.policy)) [
        | inl g ↦ rw (e, f, g) (more k)
        | inr g ↦ elim (Bool-cases (is_drop_newest t.queue.policy)) [
          | inl d ↦ rw (e, f, g, d) (newest-Kept v t b k)
          | inr d ↦ rw (e, f, g, d) (oldest-Kept v t (ground (arith, e, f)) b k)
        ]
      ]
    ]
  ]

  -- A pop of the values that the queue holds.
  take-Kept :
      {c n : ℕ} (vs : List A) (t : Trace A)
      → t.queue.values ≡ vs
      → Kept c n t
      → Kept c (suc n) (popped (pop_values vs t.queue) t)
  unfolding popped pop_values
  take-Kept [] t e k = more k
  take-Kept (v ∷ vs) t e k = record {
    fits = k.fits;
    bounded = omega (arith, k.bounded, ap length e);
    few = omega (arith, k.few);
    counted = omega (arith, k.counted, ap length e, length-snoc t.taken v);
    ordered =
        subst (λ (xs : List A). Sublist xs t.accepted)
          (ap (λ (xs : List A). t.taken ++ xs) e ∙ sym (append_assoc t.taken (v ∷ []) vs))
          k.ordered;
  }

  step-Kept :
      {c n : ℕ} (o : Op A) (t : Trace A) → suc n < 2 ^ 64 → Kept c n t → Kept c (suc n) (step o t)
  unfolding step pushed push preflight_push pop
  step-Kept (pushes none) t b k = more k
  step-Kept (pushes (some v)) t b k = push-Kept v t b k
  step-Kept pops t b k = take-Kept t.queue.values t refl k

  trace-Kept :
      {c n : ℕ} (ops : List (Op A)) (t : Trace A)
      → length ops + n < 2 ^ 64
      → Kept c n t
      → Kept c (length ops + n) (trace ops t)
  unfolding trace
  trace-Kept {c} {n} [] t b k = subst (λ (m : ℕ). Kept c m t) {x = n} (omega arith) k
  trace-Kept {c} {n} (o ∷ os) t b k =
      subst (λ (m : ℕ). Kept c m (trace os (step o t))) {x = length os + suc n} (omega arith)
        (trace-Kept os (step o t) (omega arith) (step-Kept o t (omega arith) k))

  new_trace-Kept : (c : ℕ) (p : OverflowPolicy) → Kept c 0 (new_trace c p)
  unfolding new_trace new_queue
  new_trace-Kept c p = record {
    fits = refl;
    bounded = omega arith;
    few = omega arith;
    counted = omega arith;
    ordered = Sublist.refl [];
  }

  -- In fewer than 2 ^ 64 pushes and pops on a new queue, whatever its policy, it never holds more
  -- than its capacity; each value that a push accepted was popped, is held, or is counted as
  -- dropped; and the values popped, then those held, stand in the order of their acceptance.
  pub queue_accounts :
      (c : ℕ) (p : OverflowPolicy) (ops : List (Op A))
      → length ops < 2 ^ 64
      → let t = trace ops (new_trace c p) in
        (length t.queue.values ≤ c)
        × (length t.taken + length t.queue.values + t.queue.dropped_count ≡ length t.accepted)
        × Sublist (t.taken ++ t.queue.values) t.accepted
  queue_accounts c p ops b =
      let k = trace-Kept ops (new_trace c p) (omega arith) (new_trace-Kept c p) in
      (k.bounded, k.counted, k.ordered)
