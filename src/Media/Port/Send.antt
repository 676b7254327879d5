-- ===== src/Media/Port/Send.antt =====
-- A send of include/eavp/media/port.hpp reaches every queue of the port or none.
use eavp.Base.{
  ℕ, zero, suc, ◌≡◌, ◌≢◌, refl, ◌∙◌, ◌⊎◌, inl, inr, List, [], ◌∷◌, Option, none, some, Bool, true,
  false, if◌then◌else◌, ◌==◌, arith, get_elem?, set, All, Bool-cases, Option-cases, ==_iff,
  get_elem?-set_ne,
}
use eavp.Status.{Status, ok_status, is_ok}
use eavp.Media.Queue.{Queue, preflight_push, push, store}
use eavp.Media.Port.{
  OutputPort, preflight_cell, preflight_each, push_cell, push_each, send_to, send,
}

-- The indices of a port's queues are different.
abbrev pub Distinct : List ℕ → Type 0
Distinct [] = Unit
Distinct (a ∷ cs) = All (λ b. a ≢ b) cs × Distinct cs

-- How often a port names an index.
abbrev pub mentions : ℕ → List ℕ → Bool
mentions i [] = false
mentions i (a ∷ cs) = if i == a then true else mentions i cs

unmentioned : (a : ℕ) (cs : List ℕ) → All (λ b. a ≢ b) cs → mentions a cs ≡ false
unmentioned a [] h = refl
unmentioned a (b ∷ cs) h = ground (arith, h.0, unmentioned a cs h.1)

module _ {A : Type 0} where
  -- A cell after a push that is sure to succeed.
  abbrev pub stored : A → Option (Queue A) → Option (Queue A)
  stored v none = none
  stored v (some q) = some (store v q)

  push-stores :
      (v : A) (q : Queue A)
      → is_ok (preflight_push (some v) q) ≡ true
      → push (some v) q ≡ (ok_status, store v q)
  unfolding push
  push-stores v q h = rw h refl

  set-hit :
      (qs : List (Queue A)) (a : ℕ) (q w : Queue A)
      → get_elem? qs a ≡ some q
      → get_elem? (set qs a w) a ≡ some w
  set-hit [] a q w e = ground (arith, e)
  set-hit (x ∷ qs) zero q w e = refl
  set-hit (x ∷ qs) (suc a) q w e = set-hit qs a q w e

  preflight-set :
      (v : Option A) (cs : List ℕ) (qs : List (Queue A)) (a : ℕ) (w : Queue A)
      → All (λ b. a ≢ b) cs
      → preflight_each v cs (set qs a w) ≡ preflight_each v cs qs
  unfolding preflight_each
  preflight-set v [] qs a w h = refl
  preflight-set v (b ∷ cs) qs a w h =
      rw (get_elem?-set_ne qs {i = a} {j = b} w h.0, preflight-set v cs qs a w h.1) refl

  -- What `push_each` leaves of a store.
  IsStored : A → List ℕ → List (Queue A) → Status × List (Queue A) → Type 0
  IsStored v cs qs r =
      (r.0 ≡ ok_status)
      × ((i : ℕ)
          → get_elem? r.1 i ≡ (if mentions i cs then stored v (get_elem? qs i) else get_elem? qs i))

  push_each-step :
      (v : A) (a : ℕ) (cs : List ℕ) (qs : List (Queue A)) (q : Queue A)
      (r : Status × List (Queue A))
      → get_elem? qs a ≡ some q
      → Distinct (a ∷ cs)
      → IsStored v cs (set qs a (store v q)) r
      → IsStored v (a ∷ cs) qs r
  unfolding IsStored
  push_each-step v a cs qs q r e d h = (
    h.0,
    λ i. elim (Bool-cases (i == a)) [
      | inl f ↦
          h.1 i
          ∙ rw (f, (==_iff i a).0 f, unmentioned a cs d.0, set-hit qs a q (store v q) e, e) refl
      | inr f ↦
          h.1 i ∙ rw (f, get_elem?-set_ne qs {i = a} {j = i} (store v q) (ground (arith, f))) refl
    ],
  )

  preflight_ok :
      (v : A) (a : ℕ) (cs : List ℕ) (qs : List (Queue A)) (q : Queue A)
      → get_elem? qs a ≡ some q
      → is_ok (preflight_each (some v) (a ∷ cs) qs) ≡ true
      → (is_ok (preflight_push (some v) q) ≡ true) × (is_ok (preflight_each (some v) cs qs) ≡ true)
  unfolding preflight_each preflight_cell
  preflight_ok v a cs qs q e h = ground (arith, e, h)

  push_each-IsStored :
      (v : A) (cs : List ℕ) (qs : List (Queue A))
      → Distinct cs
      → is_ok (preflight_each (some v) cs qs) ≡ true
      → IsStored v cs qs (push_each (some v) cs qs)
  unfolding push_each preflight_each preflight_cell push_cell IsStored
  push_each-IsStored v [] qs d h = (refl, λ i. refl)
  push_each-IsStored v (a ∷ cs) qs d h = elim (Option-cases (get_elem? qs a)) [
    | inl e ↦ absurd (ground (arith, e, h))
    | inr (q, e) ↦
        let k = preflight_ok v a cs qs q e h in
        rw (e, push-stores v q k.0)
          (push_each-step v a cs qs q (push_each (some v) cs (set qs a (store v q))) e d (
            push_each-IsStored v cs (set qs a (store v q)) d.1
              (rw (preflight-set (some v) cs qs a (store v q) d.0) k.1)))
  ]

  -- What a send leaves behind: every queue of the port has the value, or nothing has changed.
  pub SendsAll : A → OutputPort → List (Queue A) → Status × List (Queue A) → Type 0
  SendsAll v o qs r =
      ((r.0 ≡ ok_status)
        × ((i : ℕ)
            → get_elem? r.1 i
              ≡ (if mentions i o.connections then stored v (get_elem? qs i) else get_elem? qs i)))
      ⊎ ((is_ok r.0 ≡ false) × (r.1 ≡ qs))

  send_to-cases :
      (v : A) (cs : List ℕ) (qs : List (Queue A))
      → Distinct cs
      → IsStored v cs qs (send_to (some v) cs qs)
        ⊎ ((is_ok (send_to (some v) cs qs).0 ≡ false) × ((send_to (some v) cs qs).1 ≡ qs))
  unfolding send_to
  send_to-cases v [] qs d = inr (refl, refl)
  send_to-cases v (a ∷ cs) qs d = elim (Bool-cases (is_ok (preflight_each (some v) (a ∷ cs) qs))) [
    | inl e ↦ rw e (inl (push_each-IsStored v (a ∷ cs) qs d e))
    | inr e ↦ rw e (inr (e, refl))
  ]

  -- A send of a value by an output port whose queues are different either succeeds, and then each
  -- of its queues has stored the value by its policy and no other queue has changed, or fails and
  -- changes no queue.
  pub send_all_or_none :
      (v : A) (o : OutputPort) (qs : List (Queue A))
      → Distinct o.connections
      → SendsAll v o qs (send o (some v) qs)
  unfolding send SendsAll IsStored
  send_all_or_none v o qs d = send_to-cases v o.connections qs d
