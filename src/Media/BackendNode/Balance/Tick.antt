-- ===== src/Media/BackendNode/Balance/Tick.antt =====
-- The balance of `on_tick` of src/media/backend_node.cpp.
use mathlib.Core.Path.{subst}
use eavp.Base.{
  ◌≡◌, refl, sym, ap, ◌∙◌, ◌⊎◌, inl, inr, Bool, true, false, ◌||◌, List, [], ◌∷◌, ◌++◌, Option,
  none, some, if◌then◌else◌, Bool-cases, arith,
}
use eavp.Status.{
  Status, ok_status, is_ok, has_code, would_block, not_found, end_of_stream, Result, success,
  failure,
}
use eavp.Media.Node.{bad_alloc, other, Outcome, returned, thrown}
use eavp.Media.Flow.{Flow, next, done, raised, after, ensure}
use eavp.Media.Flow.Rules.{Holds, Holds-after, Holds-ensure}
use eavp.Media.BackendNode.{
  Backend, Ports, Messages, BackendNode, caught, catches, call, hold_input, hold_output,
  is_temporarily_empty, send_pending_output, receive_input, offer, forward_output, take_input, feed,
  tick_body, on_tick,
}
use eavp.Media.BackendNode.Balance.{held, Logged, Recorded, logged, recorded, Balanced}
use eavp.Media.BackendNode.Balance.Gap.{
  Gap, Gap-Balanced, Gap-hold_input, Gap-hold_output, Balanced-Gap, Offered, taken, refused,
  Flushed, flushed, stuck, Fetched, Taken, submit-Holds, receive-Holds,
}
use eavp.Media.BackendNode.Balance.Port.{receive_input-Holds, send_pending_output-Holds}

-- A status that is neither ok nor `kWouldBlock`.
abbrev pub is_loss : Status → Bool
is_loss st = elim (is_ok st || has_code would_block st) [ true ↦ false | false ↦ true ]

loss : (st : Status) → is_ok st ≡ false → has_code would_block st ≡ false → is_loss st ≡ true
loss st e w = rw (is_loss, e, w) refl

module _ {B P V W : Type 0} where
  -- Each output that the backend gave was taken by the ports or is held, in order.
  abbrev pub Outs : BackendNode (Logged B V W) (Recorded P V W) V W → Type 0
  Outs s = s.backend.received ≡ s.ports.delivered ++ held s.pending_output

  -- What a tick that returned `st` leaves.
  abbrev pub TickLeaves : Status → BackendNode (Logged B V W) (Recorded P V W) V W → Type 0
  TickLeaves st s = Outs s × (Balanced s ⊎ (is_loss st ≡ true))

  -- What the outcome of `on_tick` leaves.
  pub TickEnds : Outcome Status × BackendNode (Logged B V W) (Recorded P V W) V W → Type 0
  TickEnds (returned st, s) = TickLeaves st s
  TickEnds (thrown e, s) = ⊥

  keeps :
      (st : Status) (i : Option V) (o : Option W)
      (s : BackendNode (Logged B V W) (Recorded P V W) V W)
      → Gap (held i) (held o) i o s
      → TickLeaves st s
  keeps st i o s g = let k = Gap-Balanced i o s g in (k.outputs, inl k)

  outs :
      (x : List V) (i : Option V) (o : Option W)
      (s : BackendNode (Logged B V W) (Recorded P V W) V W)
      → Gap x (held o) i o s
      → Outs s
  outs x i o s g = g.outputs ∙ ap (λ (j : Option W). s.ports.delivered ++ held j) (sym g.output)

  catches-TickEnds :
      (r : Flow Status × BackendNode (Logged B V W) (Recorded P V W) V W)
      → Holds TickLeaves Outs TickLeaves r
      → TickEnds (catches r)
  unfolding catches caught Holds TickEnds
  catches-TickEnds (next st, s) h = h
  catches-TickEnds (done st, s) h = h
  catches-TickEnds (raised bad_alloc, s) h = (h, inr refl)
  catches-TickEnds (raised other, s) h = (h, inr refl)

module _ {B P V W : Type 0} (b : Backend B V W) (p : Ports P V W) (text : Messages) where
  offer-TickLeaves :
      (v : V) (s : BackendNode (Logged B V W) (Recorded P V W) V W)
      → Gap (v ∷ []) [] (some v) none s
      → Holds TickLeaves Outs TickLeaves (offer (logged b) (recorded p) text v s)
  unfolding offer Holds hold_input after
  offer-TickLeaves v s g =
      Holds-after TickLeaves Outs (Offered v [] (some v) none) TickLeaves
        (call ((logged b).submit v) s) _
        (submit-Holds TickLeaves Outs b v [] (some v) none s g (outs (v ∷ []) (some v) none))
        (λ st t h. elim h [
          | taken e k ↦ rw e (keeps st none none _ (Gap-hold_input none t k))
          | refused e k ↦ rw e (keeps st (some v) none t k)
        ])

  take_input-TickLeaves :
      (r : Result V) (s : BackendNode (Logged B V W) (Recorded P V W) V W)
      → Taken [] none none r s
      → Holds TickLeaves Outs TickLeaves (take_input (logged b) (recorded p) text r s)
  unfolding take_input Holds hold_input after Taken
  take_input-TickLeaves (failure st) s g =
      keeps (if has_code not_found st then ok_status else st) none none s g
  take_input-TickLeaves (success v) s g =
      Holds-after TickLeaves Outs (Offered v [] none none) TickLeaves (call ((logged b).submit v) s)
        _ (submit-Holds TickLeaves Outs b v [] none none s g (outs (v ∷ []) none none))
        (λ st t h. elim (Bool-cases (has_code would_block st)) [
          | inl w ↦ rw w (elim h [
            | taken e k ↦ absurd (ground (arith, e, w))
            | refused e k ↦ keeps st (some v) none _ (Gap-hold_input (some v) t k)
          ])
          | inr w ↦ rw w (elim h [
            | taken e k ↦ keeps st none none t k
            | refused e k ↦ (outs (v ∷ []) none none t k, inr (loss st e w))
          ])
        ])

  feed-TickLeaves :
      (i : Option V) (s : BackendNode (Logged B V W) (Recorded P V W) V W)
      → Gap (held i) [] i none s
      → Holds TickLeaves Outs TickLeaves (feed (logged b) (recorded p) text i s)
  unfolding feed
  feed-TickLeaves (some v) s g = offer-TickLeaves v s g
  feed-TickLeaves none s g =
      Holds-after TickLeaves Outs (Taken [] none none) TickLeaves
        (receive_input (logged b) (recorded p) text s) _
        (receive_input-Holds b p text TickLeaves Outs [] none none s g) take_input-TickLeaves

  -- What holds once there is no output to send.
  abbrev Free : Option V → BackendNode (Logged B V W) (Recorded P V W) V W → Type 0
  Free i s = Gap (held i) [] i none s

  flush_check :
      (i : Option V) (o : Option W) (st : Status)
      (s : BackendNode (Logged B V W) (Recorded P V W) V W)
      → Flushed (held i) i o st s
      → Holds TickLeaves Outs (λ u. Free i) (ensure st s)
  flush_check i o st s (flushed g) =
      Holds-ensure TickLeaves Outs (λ u. Free i) st s (λ e. keeps st i none s g) (λ e. g)
  flush_check i o st s (stuck e g) =
      Holds-ensure TickLeaves Outs (λ u. Free i) st s (λ n. keeps st i o s g)
        (λ t. ground (arith, e, t))

  forward_output-Free :
      (i : Option V) (r : Result (Option W)) (s : BackendNode (Logged B V W) (Recorded P V W) V W)
      → Fetched (held i) i none r s
      → Holds TickLeaves Outs (λ u. Free i) (forward_output (logged b) (recorded p) text r s)
  unfolding forward_output Fetched hold_output after Holds
  forward_output-Free i (success w) s g =
      Holds-after TickLeaves Outs (Flushed (held i) i w) (λ u. Free i)
        (send_pending_output (logged b) (recorded p) text (record s { pending_output = w })) _
        (send_pending_output-Holds b p text TickLeaves Outs (held i) i w _ (Gap-hold_output w s g))
        (flush_check i w)
  forward_output-Free i (failure st) s g = elim (Bool-cases (has_code end_of_stream st)) [
    | inl e ↦ rw e (keeps st i none s g)
    | inr e ↦ elim (Bool-cases (is_temporarily_empty st)) [
      | inl t ↦ rw (e, t) g
      | inr t ↦ rw (e, t) (keeps st i none s g)
    ]
  ]

  feed-pending :
      (i : Option V) (s : BackendNode (Logged B V W) (Recorded P V W) V W)
      → Free i s
      → Holds TickLeaves Outs TickLeaves (feed (logged b) (recorded p) text s.pending_input s)
  feed-pending i s g =
      subst
        (λ (j : Option V). Holds TickLeaves Outs TickLeaves (feed (logged b) (recorded p) text j s))
        (sym g.input) (feed-TickLeaves i s g)

  tick_body-TickLeaves :
      (s : BackendNode (Logged B V W) (Recorded P V W) V W)
      → Balanced s
      → Holds TickLeaves Outs TickLeaves (tick_body (logged b) (recorded p) text s)
  unfolding tick_body
  tick_body-TickLeaves s h =
      let i = s.pending_input in
      Holds-after TickLeaves Outs (Flushed (held i) i s.pending_output) TickLeaves
        (send_pending_output (logged b) (recorded p) text s) _
        (send_pending_output-Holds b p text TickLeaves Outs (held i) i s.pending_output s
          (Balanced-Gap s h))
        (λ st t f.
          Holds-after TickLeaves Outs (λ u. Free i) TickLeaves (ensure st t) _
            (flush_check i s.pending_output st t f)
            (λ u t g.
              Holds-after TickLeaves Outs (Fetched (held i) i none) TickLeaves
                (call (logged b).receive t) _
                (receive-Holds TickLeaves Outs b (held i) i none t g (outs (held i) i none))
                (λ r t g.
                  Holds-after TickLeaves Outs (λ u. Free i) TickLeaves
                    (forward_output (logged b) (recorded p) text r t) _
                    (forward_output-Free i r t g) (λ u t g. feed-pending i t g))))

  -- A tick of a node that holds all that is under way returns a status; each output that the
  -- backend gave has then been taken by the ports or is held, in order; and each input that the
  -- ports gave has been taken by the backend or is held, in order, unless the status is neither ok
  -- nor `kWouldBlock`.
  pub tick_keeps :
      (s : BackendNode (Logged B V W) (Recorded P V W) V W)
      → Balanced s
      → TickEnds (on_tick (logged b) (recorded p) text s)
  unfolding on_tick
  tick_keeps s h =
      catches-TickEnds (tick_body (logged b) (recorded p) text s) (tick_body-TickLeaves s h)
