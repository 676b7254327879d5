-- ===== src/Media/Port/Wired.antt =====
-- The connections that include/eavp/media/port.hpp makes: the queues of an output port are different
-- cells of the store.
use eavp.Base.{
  ℕ, zero, suc, ◌+◌, ◌<◌, ◌≡◌, ◌≢◌, refl, ◌⊎◌, inl, inr, List, [], ◌∷◌, ◌++◌, Option, none, some,
  false, ◌==◌, arith, length, length-append, get_elem?, All, Bool-cases,
}
use eavp.Status.{Status, ok_status, is_ok}
use eavp.Media.Queue.{Queue, new_queue}
use eavp.Media.Port.{OutputPort, InputPort, connect, connect_to}
use eavp.Media.Port.Send.{Distinct}

-- A port whose queues are different cells of a store of `n`.
pub record IsWired (n : ℕ) (o : OutputPort) : Type 0 where
  pub distinct : Distinct o.connections
  pub within : All (λ a. a < n) o.connections

All-snoc : (P : ℕ → Type 0) (cs : List ℕ) (a : ℕ) → All P cs → P a → All P (cs ++ (a ∷ []))
All-snoc P [] a h p = (p, tt)
All-snoc P (c ∷ cs) a h p = (h.0, All-snoc P cs a h.1 p)

All-weaken : (n : ℕ) (cs : List ℕ) → All (λ a. a < n) cs → All (λ a. a < n + 1) cs
All-weaken n [] h = tt
All-weaken n (c ∷ cs) h = (omega (arith, h.0), All-weaken n cs h.1)

Distinct-snoc :
    (n : ℕ) (cs : List ℕ) → Distinct cs → All (λ a. a < n) cs → Distinct (cs ++ (n ∷ []))
Distinct-snoc n [] d h = (tt, tt)
Distinct-snoc n (c ∷ cs) d h =
    (All-snoc (λ a. c ≢ a) cs n d.0 (omega (arith, h.0)), Distinct-snoc n cs d.1 h.1)

snoc-IsWired :
    (n : ℕ) (o : OutputPort)
    → IsWired n o
    → IsWired ((n + 1)) (record o { connections = o.connections ++ (n ∷ []) })
snoc-IsWired n o w = record {
  distinct = Distinct-snoc n o.connections w.distinct w.within;
  within =
      All-snoc (λ a. a < n + 1) o.connections n (All-weaken n o.connections w.within) (omega arith);
}

module _ {A : Type 0} where
  get_elem?-snoc :
      (qs : List (Queue A)) (q : Queue A) (i : ℕ)
      → i < length qs
      → get_elem? (qs ++ (q ∷ [])) i ≡ get_elem? qs i
  get_elem?-snoc [] q i h = ground (arith, h)
  get_elem?-snoc (x ∷ qs) q zero h = refl
  get_elem?-snoc (x ∷ qs) q (suc i) h = get_elem?-snoc qs q i (omega arith)

  get_elem?-last :
      (qs : List (Queue A)) (q : Queue A) → get_elem? (qs ++ (q ∷ [])) (length qs) ≡ some q
  get_elem?-last [] q = refl
  get_elem?-last (x ∷ qs) q = get_elem?-last qs q

  -- What a connection leaves behind: nothing has changed, as the input port is taken or
  -- has no capacity, or the store has a new empty queue at its
  -- end, which is the last connection of the output port and the queue of the input port.
  pub Connects :
      OutputPort
      → InputPort
      → List (Queue A)
      → Status × OutputPort × InputPort × List (Queue A)
      → Type 0
  Connects o i qs r =
      ((is_ok r.0 ≡ false)
        × (((a : ℕ) × (i.queue ≡ some a)) ⊎ (i.capacity ≡ 0))
        × (r.1 ≡ o)
        × (r.2 ≡ i)
        × (r.3 ≡ qs))
      ⊎ ((r.0 ≡ ok_status)
          × (i.queue ≡ none)
          × (0 < i.capacity)
          × (r.1 ≡ record o { connections = o.connections ++ (length qs ∷ []) })
          × (r.2 ≡ record i { queue = some (length qs) })
          × (r.3 ≡ qs ++ (new_queue i.capacity i.policy ∷ []))
          × (get_elem? r.3 (length qs) ≡ some (new_queue i.capacity i.policy))
          × IsWired (length r.3) r.1)

  connect_to-Connects :
      (c : Option ℕ) (o : OutputPort) (i : InputPort) (qs : List (Queue A))
      → i.queue ≡ c
      → IsWired (length qs) o
      → Connects o i qs (connect_to c o i qs)
  unfolding connect_to Connects
  connect_to-Connects (some a) o i qs e w = inl (refl, inl (a, e), refl, refl, refl)
  connect_to-Connects none o i qs e w = elim (Bool-cases (i.capacity == 0)) [
    | inl f ↦ rw f (inl (refl, inr (ground (arith, f)), refl, refl, refl))
    | inr f ↦ rw f (
        inr (
          refl,
          e,
          ground (arith, f),
          refl,
          refl,
          refl,
          get_elem?-last qs (new_queue i.capacity i.policy),
          rw (length-append qs (new_queue i.capacity i.policy ∷ [])) (snoc-IsWired (length qs) o w),
        ))
  ]

  -- A connection of a wired output port to an input port fails and changes nothing, and then the
  -- input port already had a queue or its capacity is 0; or it is ok, the input port had no queue
  -- and its capacity is positive, and the store is the old one with a new empty queue of that
  -- capacity and the input port's policy at its end: that cell is the input port's queue, it is
  -- added to the end of the output port's connections, nothing else of the ports changes, and the
  -- output port's connections are again different cells of the store.
  pub connect_wires :
      (o : OutputPort) (i : InputPort) (qs : List (Queue A))
      → IsWired (length qs) o
      → Connects o i qs (connect o i qs)
  unfolding connect
  connect_wires o i qs w = connect_to-Connects i.queue o i qs refl w
