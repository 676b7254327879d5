-- ===== src/Media/Reference/Ran/Submitted.antt =====
-- A `submit` of src/media/reference_backend.cpp keeps what `Keeps` says, of one frame more when it is ok.
use mathlib.Core.List.{append_assoc}
use eavp.Base.{
  ℕ, ◌+◌, ◌≡◌, ◌⊎◌, ◌<◌, ◌%◌, ◌^◌, refl, sym, ap, ◌∙◌, true, false, not, List, [], ◌∷◌, ◌++◌,
  Option, none, some, length, length-append, leb, if_both, inl, inr, arith,
}
use eavp.Status.{Status, is_ok}
use eavp.Media.Reference.{
  ReferenceBackendOptions, ReferenceBackend, BackendState, Behaviour, submit, submit_frame, store,
  verify_current_thread, fits_config, is_lost, can_submit,
}
use mathlib.Core.Bool.{false≢true}
use eavp.Media.Reference.Ran.{Keeps, is_error}

module _ {V G W : Type 0} (k : Behaviour V G W) (o : ReferenceBackendOptions) where
  submit-no_error : (s : BackendState) → can_submit s ≡ true → is_error s ≡ false
  submit-no_error BackendState.configured h = refl
  submit-no_error BackendState.running h = refl
  submit-no_error BackendState.error h = absurd (false≢true h)
  submit-no_error s h = refl

  module _ (t : ℕ) (vs : List V) (ws : List W) where
    lost-Keeps :
        (b : ReferenceBackend V G)
        → Keeps k o b vs ws
        → Keeps k o (record b { state = BackendState.error; queue = [] }) vs ws
    lost-Keeps b h = record {
      options_same = h.options_same;
      front = h.front;
      rest = h.rest;
      split = h.split;
      given = h.given;
      queued = λ n. absurd (false≢true (sym n));
      bounded = omega arith;
      idle = λ n. refl;
    }

    stored-Keeps :
        (v : V) (b : ReferenceBackend V G)
        → can_submit b.state ≡ true
        → length b.queue < b.options.queue_capacity
        → Keeps k o b vs ws
        → Keeps k o
            (record b {
              state = BackendState.running;
              successful_submissions = (b.successful_submissions + 1) % 2 ^ 64;
              queue = b.queue ++ v ∷ [];
            })
            (vs ++ v ∷ [])
            ws
    stored-Keeps v b c l h = record {
      options_same = h.options_same;
      front = h.front;
      rest = h.rest ++ v ∷ [];
      split = ap (λ (x : List V). x ++ v ∷ []) h.split ∙ append_assoc h.front h.rest (v ∷ []);
      given = h.given;
      queued = λ n. ap (λ (x : List V). x ++ v ∷ []) (h.queued (submit-no_error b.state c));
      bounded =
          let e = ap (λ (x : ReferenceBackendOptions). x.queue_capacity) h.options_same in
          omega (arith, length-append b.queue (v ∷ []), l, e);
      idle = λ n. absurd (false≢true n);
    }

    -- A submission of `v`: it is accepted and queued, or it is not accepted.
    abbrev pub Submitted : Option V → Status × ReferenceBackend V G → Type 0
    Submitted v r =
        ((w : V) × (v ≡ some w) × (is_ok r.0 ≡ true) × Keeps k o r.1 (vs ++ w ∷ []) ws)
        ⊎ (is_ok r.0 ≡ false) × Keeps k o r.1 vs ws

    submit_frame-Submitted :
        (v : Option V) (b : ReferenceBackend V G)
        → can_submit b.state ≡ true
        → Keeps k o b vs ws
        → Submitted v (submit_frame k t v b)
    unfolding submit_frame store
    submit_frame-Submitted none b c h = inr (refl, h)
    submit_frame-Submitted (some v) b c h =
        if_both (Submitted (some v)) (not (fits_config k t v b.config)) (λ _. inr (refl, h))
          (λ _.
            if_both (Submitted (some v)) (not (is_ok (k.alignment v)))
              (λ e. inr (ground (arith, e), h))
              (λ _.
                if_both (Submitted (some v)) (is_lost k t b) (λ _. inr (refl, lost-Keeps b h))
                  (λ _.
                    if_both (Submitted (some v)) (leb b.options.queue_capacity (length b.queue))
                      (λ _. inr (refl, h))
                      (λ e. inl (v, refl, refl, stored-Keeps v b c (ground (arith, e)) h)))))

    pub submit-Submitted :
        (v : Option V) (b : ReferenceBackend V G) → Keeps k o b vs ws → Submitted v (submit k t v b)
    unfolding submit
    submit-Submitted v b h =
        if_both (Submitted v) (not (is_ok (verify_current_thread b.owner t)))
          (λ e. inr (ground (arith, e), h))
          (λ _.
            if_both (Submitted v) (not (can_submit b.state)) (λ _. inr (refl, h))
              (λ e. submit_frame-Submitted v b (ground (arith, e)) h))
