-- ===== src/Media/BackendNode/Stop/Keeps.antt =====
-- The balance of `on_stop` of src/media/backend_node.cpp.
use mathlib.Core.Path.{subst}
use eavp.Base.{sym, inl, inr, [], ◌∷◌, Option, none, some, if◌then◌else◌, Bool-cases, arith}
use eavp.Status.{
  Status, is_ok, has_code, would_block, not_found, end_of_stream, Result, success, failure,
}
use eavp.Media.Node.{Outcome, returned, thrown}
use eavp.Media.Flow.{Flow, next, done, raised, Step, after, ensure}
use eavp.Media.Flow.Rules.{Holds, Holds-after, Holds-ensure}
use eavp.Media.BackendNode.{
  Backend, Ports, Messages, BackendNode, catches, call, hold_input, hold_output, mark_drain,
  is_temporarily_empty, send_pending_output, receive_input, offer,
}
use eavp.Media.BackendNode.Stop.{
  pass_on, make_room, stop_pending, pass_drained, drain_output, start_drain, stop_input, stop_feed,
  stop_body, on_stop,
}
use eavp.Media.BackendNode.Balance.{held, Logged, Recorded, logged, recorded, Balanced}
use eavp.Media.BackendNode.Balance.Gap.{
  Gap, Gap-Balanced, Gap-hold_input, Gap-hold_output, Balanced-Gap, Offered, taken, refused,
  Flushed, flushed, stuck, Fetched, Taken, submit-Holds, receive-Holds, begin_drain-Holds,
}
use eavp.Media.BackendNode.Balance.Port.{receive_input-Holds, send_pending_output-Holds}

module _ {B P V W : Type 0} where
  -- What a stop leaves, whatever it returned.
  abbrev Kept : Status → BackendNode (Logged B V W) (Recorded P V W) V W → Type 0
  Kept st s = Balanced s

  -- What the outcome of `on_stop` leaves.
  pub StopEnds : Outcome Status × BackendNode (Logged B V W) (Recorded P V W) V W → Type 0
  StopEnds (returned st, s) = Balanced s
  StopEnds (thrown e, s) = ⊥

  catches-StopEnds :
      (r : Flow Status × BackendNode (Logged B V W) (Recorded P V W) V W)
      → Holds Kept Balanced Kept r
      → StopEnds (catches r)
  unfolding catches Holds StopEnds
  catches-StopEnds (next st, s) h = h
  catches-StopEnds (done st, s) h = h
  catches-StopEnds (raised e, s) h = h

  Flushed-Balanced :
      (i : Option V) (o : Option W) (st : Status)
      (s : BackendNode (Logged B V W) (Recorded P V W) V W)
      → Flushed (held i) i o st s
      → Balanced s
  Flushed-Balanced i o st s (flushed g) = Gap-Balanced i none s g
  Flushed-Balanced i o st s (stuck e g) = Gap-Balanced i o s g

module _ {B P V W : Type 0} (b : Backend B V W) (p : Ports P V W) (text : Messages) where
  offer-Free :
      (v : V) (s : BackendNode (Logged B V W) (Recorded P V W) V W)
      → Gap (v ∷ []) [] (some v) none s
      → Holds Kept Balanced
          (λ st t. (i : Option V) × Gap (held i) [] i none t)
          (offer (logged b) (recorded p) text v s)
  unfolding offer Holds hold_input after
  offer-Free v s g =
      Holds-after Kept Balanced (Offered v [] (some v) none)
        (λ st t. (i : Option V) × Gap (held i) [] i none t) (call ((logged b).submit v) s) _
        (submit-Holds Kept Balanced b v [] (some v) none s g (Gap-Balanced (some v) none))
        (λ st t h. elim h [
          | taken e k ↦ rw e (none, Gap-hold_input none t k)
          | refused e k ↦ rw e (some v, k)
        ])

  pass_on-Keeps :
      (i : Option V) (w : Option W) (s : BackendNode (Logged B V W) (Recorded P V W) V W)
      → Gap (held i) (held w) i none s
      → Holds Kept Balanced Kept (pass_on (logged b) (recorded p) text w s)
  unfolding pass_on hold_output after Holds
  pass_on-Keeps i w s g =
      Holds-after Kept Balanced (Flushed (held i) i w) Kept
        (send_pending_output (logged b) (recorded p) text (record s { pending_output = w })) _
        (send_pending_output-Holds b p text Kept Balanced (held i) i w _ (Gap-hold_output w s g))
        (Flushed-Balanced i w)

  make_room-Keeps :
      (i : Option V) (r : Result (Option W)) (s : BackendNode (Logged B V W) (Recorded P V W) V W)
      → Fetched (held i) i none r s
      → Holds Kept Balanced Kept (make_room (logged b) (recorded p) text r s)
  unfolding make_room Fetched Holds
  make_room-Keeps i (success w) s g = pass_on-Keeps i w s g
  make_room-Keeps i (failure st) s g = elim (Bool-cases (has_code end_of_stream st)) [
    | inl e ↦ rw e (Gap-Balanced i none s g)
    | inr e ↦ rw e (Gap-Balanced i none s g)
  ]

  -- What follows a call of `receive` by a node that holds no output.
  fetch-Keeps :
      (f : Result (Option W) → Step (BackendNode (Logged B V W) (Recorded P V W) V W) Status)
      (i : Option V) (s : BackendNode (Logged B V W) (Recorded P V W) V W)
      → Gap (held i) [] i none s
      → ((r : Result (Option W)) (t : BackendNode (Logged B V W) (Recorded P V W) V W)
          → Fetched (held i) i none r t
          → Holds Kept Balanced Kept (f r t))
      → Holds Kept Balanced Kept (after (call (logged b).receive s) f)
  fetch-Keeps f i s g k =
      Holds-after Kept Balanced (Fetched (held i) i none) Kept (call (logged b).receive s) f
        (receive-Holds Kept Balanced b (held i) i none s g (Gap-Balanced i none)) k

  stop_pending-Keeps :
      (v : V) (s : BackendNode (Logged B V W) (Recorded P V W) V W)
      → Gap (v ∷ []) [] (some v) none s
      → Holds Kept Balanced Kept (stop_pending (logged b) (recorded p) text v s)
  unfolding stop_pending Holds
  stop_pending-Keeps v s g =
      Holds-after Kept Balanced (λ st t. (i : Option V) × Gap (held i) [] i none t) Kept
        (offer (logged b) (recorded p) text v s) _ (offer-Free v s g)
        (λ st t h. elim (Bool-cases (is_ok st)) [
          | inl e ↦ rw e (Gap-Balanced h.0 none t h.1)
          | inr e ↦ elim (Bool-cases (has_code would_block st)) [
            | inl f ↦ rw (e, f) (fetch-Keeps _ h.0 t h.1 (make_room-Keeps h.0))
            | inr f ↦ rw (e, f) (Gap-Balanced h.0 none t h.1)
          ]
        ])

  pass_drained-Keeps :
      (i : Option V) (r : Result (Option W)) (s : BackendNode (Logged B V W) (Recorded P V W) V W)
      → Fetched (held i) i none r s
      → Holds Kept Balanced Kept (pass_drained (logged b) (recorded p) text r s)
  unfolding pass_drained Fetched Holds
  pass_drained-Keeps i (success w) s g = pass_on-Keeps i w s g
  pass_drained-Keeps i (failure st) s g = Gap-Balanced i none s g

  drain_output-Keeps :
      (i : Option V) (s : BackendNode (Logged B V W) (Recorded P V W) V W)
      → Gap (held i) [] i none s
      → Holds Kept Balanced Kept (drain_output (logged b) (recorded p) text s)
  unfolding drain_output
  drain_output-Keeps i s g = fetch-Keeps _ i s g (pass_drained-Keeps i)

  start_drain-Keeps :
      (i : Option V) (r : Result (Option W)) (s : BackendNode (Logged B V W) (Recorded P V W) V W)
      → Fetched (held i) i none r s
      → Holds Kept Balanced Kept (start_drain (logged b) (recorded p) text r s)
  unfolding start_drain Fetched Holds mark_drain after
  start_drain-Keeps i (success w) s g = pass_on-Keeps i w s g
  start_drain-Keeps i (failure st) s g = elim (Bool-cases (has_code end_of_stream st)) [
    | inl e ↦ rw e (Gap-Balanced i none s g)
    | inr e ↦ elim (Bool-cases (is_temporarily_empty st)) [
      | inr f ↦ rw (e, f) (Gap-Balanced i none s g)
      | inl f ↦
          rw (e, f)
            (Holds-after Kept Balanced (λ q. Gap (held i) [] i none) Kept
              (call (logged b).begin_drain s) _
              (begin_drain-Holds Kept Balanced b s g (Gap-Balanced i none))
              (λ q t k.
                Holds-after Kept Balanced (λ u. Gap (held i) [] i none) Kept (ensure q t) _
                  (Holds-ensure Kept Balanced (λ u. Gap (held i) [] i none) q t
                    (λ n. Gap-Balanced i none t k) (λ y. k))
                  (λ u t k. drain_output-Keeps i _ (record {
                    inputs = k.inputs;
                    outputs = k.outputs;
                    input = k.input;
                    output = k.output;
                  }))))
    ]
  ]

  stop_input-Keeps :
      (r : Result V) (s : BackendNode (Logged B V W) (Recorded P V W) V W)
      → Taken [] none none r s
      → Holds Kept Balanced Kept (stop_input (logged b) (recorded p) text r s)
  unfolding stop_input Taken Holds hold_input after
  stop_input-Keeps (success v) s g =
      Holds-after Kept Balanced (λ st t. (i : Option V) × Gap (held i) [] i none t) Kept
        (offer (logged b) (recorded p) text v (record s { pending_input = some v })) _
        (offer-Free v _ (Gap-hold_input (some v) s g)) (λ st t h. Gap-Balanced h.0 none t h.1)
  stop_input-Keeps (failure st) s g = elim (Bool-cases (has_code not_found st)) [
    | inl e ↦ rw e (fetch-Keeps _ none s g (start_drain-Keeps none))
    | inr e ↦ rw e (Gap-Balanced none none s g)
  ]

  stop_feed-Keeps :
      (i : Option V) (s : BackendNode (Logged B V W) (Recorded P V W) V W)
      → Gap (held i) [] i none s
      → Holds Kept Balanced Kept (stop_feed (logged b) (recorded p) text i s)
  unfolding stop_feed
  stop_feed-Keeps (some v) s g = stop_pending-Keeps v s g
  stop_feed-Keeps none s g =
      Holds-after Kept Balanced (Taken [] none none) Kept
        (receive_input (logged b) (recorded p) text s) _
        (receive_input-Holds b p text Kept Balanced [] none none s g) stop_input-Keeps

  flush_check :
      (i : Option V) (o : Option W) (st : Status)
      (s : BackendNode (Logged B V W) (Recorded P V W) V W)
      → Flushed (held i) i o st s
      → Holds Kept Balanced (λ u. Gap (held i) [] i none) (ensure st s)
  flush_check i o st s (flushed g) =
      Holds-ensure Kept Balanced (λ u. Gap (held i) [] i none) st s (λ n. Gap-Balanced i none s g)
        (λ y. g)
  flush_check i o st s (stuck e g) =
      Holds-ensure Kept Balanced (λ u. Gap (held i) [] i none) st s (λ n. Gap-Balanced i o s g)
        (λ y. ground (arith, e, y))

  stop_rest-Keeps :
      (i : Option V) (s : BackendNode (Logged B V W) (Recorded P V W) V W)
      → Gap (held i) [] i none s
      → Holds Kept Balanced Kept (
          if s.drain_started
          then drain_output (logged b) (recorded p) text s
          else stop_feed (logged b) (recorded p) text s.pending_input s)
  stop_rest-Keeps i s g =
      elim (Bool-cases s.drain_started)
        as (λ c. Holds Kept Balanced Kept (
          if s.drain_started
          then drain_output (logged b) (recorded p) text s
          else stop_feed (logged b) (recorded p) text s.pending_input s)) [
            | inl e ↦ simp e (drain_output-Keeps i s g)
            | inr e ↦ simp e (
                subst
                  (λ (j : Option V).
                    Holds Kept Balanced Kept (stop_feed (logged b) (recorded p) text j s))
                  (sym g.input) (stop_feed-Keeps i s g))
          ]

  stop_body-Keeps :
      (s : BackendNode (Logged B V W) (Recorded P V W) V W)
      → Balanced s
      → Holds Kept Balanced Kept (stop_body (logged b) (recorded p) text s)
  unfolding stop_body
  stop_body-Keeps s h =
      let i = s.pending_input in
      Holds-after Kept Balanced (Flushed (held i) i s.pending_output) Kept
        (send_pending_output (logged b) (recorded p) text s) _
        (send_pending_output-Holds b p text Kept Balanced (held i) i s.pending_output s
          (Balanced-Gap s h))
        (λ st t f.
          Holds-after Kept Balanced (λ u. Gap (held i) [] i none) Kept (ensure st t) _
            (flush_check i s.pending_output st t f) (λ u t g. stop_rest-Keeps i t g))

  -- A stop of a node that holds all that is under way returns a status, and whatever it is, each
  -- output that the backend gave has then been taken by the ports or is held, in order, and each
  -- input that the ports gave has been taken by the backend or is held, in order.
  pub stop_keeps :
      (s : BackendNode (Logged B V W) (Recorded P V W) V W)
      → Balanced s
      → StopEnds (on_stop (logged b) (recorded p) text s)
  unfolding on_stop
  stop_keeps s h = catches-StopEnds (stop_body (logged b) (recorded p) text s) (stop_body-Keeps s h)
