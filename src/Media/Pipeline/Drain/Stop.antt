-- ===== src/Media/Pipeline/Drain/Stop.antt =====
-- How a call of `MediaPipeline::stop` (src/media/pipeline.cpp) on an active pipeline ends, and that
-- its loop does.
use native.Mathlib.Nat.{add-zero, add-suc}
use eavp.Base.{
  ℕ, zero, suc, ◌≤◌, ◌+◌, ◌-◌, ◌≡◌, ◌≢◌, refl, ap, ◌∙◌, String, List, [], ◌∷◌, none, Option-cases,
  arith, inl, inr, get_elem?, length,
}
use eavp.Status.{Status}
use eavp.Media.Node.{Hooks, Outcome, returned, Outcome-cases, stop as stop_node}
use eavp.Media.Pipeline.{on_node, Pipeline, PipelineState}
use eavp.Media.Pipeline.Formed.{Covers}
use eavp.Media.Pipeline.Drain.{
  drain_node, drain, drain_loop, stop_in, stop_active, enter_drain, stop,
}
use eavp.Media.Pipeline.Drain.Ends.{Ends, drain-Ends, Ends-later}

module _ {S : Type 0} (h : Hooks S) where
  get_elem?-none : {A : Type 0} (xs : List A) (i : ℕ) → length xs ≤ i → get_elem? xs i ≡ none
  get_elem?-none [] i l = refl
  get_elem?-none (x ∷ xs) zero l = absurd (omega arith)
  get_elem?-none (x ∷ xs) (suc i) l = get_elem?-none xs i (omega arith)

  drain_node-congr :
      (f g : Pipeline S → Outcome Status × Pipeline S) (id : String) (p : Pipeline S)
      → let p' = record p {
        nodes = (on_node id (stop_node h) p.nodes).1;
        drain_index = suc p.drain_index;
      } in
        f p' ≡ g p' → drain_node h f id p ≡ drain_node h g id p
  unfolding drain_node
  drain_node-congr f g id p e = elim (Outcome-cases (on_node id (stop_node h) p.nodes).0) [
    | inr (x, q) ↦ rw (q, drain_node)
    | inl (a, q) ↦ rw (q, drain_node, e)
  ]

  drain-suc :
      (f : ℕ) (p : Pipeline S)
      → length p.drain_order ≤ p.drain_index + f
      → drain h (suc f) p ≡ drain h f p
  unfolding drain
  drain-suc zero p l = rw (get_elem?-none p.drain_order p.drain_index (omega arith), drain)
  drain-suc (suc f) p l = elim (Option-cases (get_elem? p.drain_order p.drain_index)) [
    | inl q ↦ rw (q, drain) refl
    | inr (id, q) ↦
        rw (q, drain)
          (drain_node-congr (drain h (suc f)) (drain h f) id p (drain-suc f _ (omega arith)))
  ]

  -- The loop of `stop` is done after as many rounds as there are nodes from `drain_index_` on: more
  -- fuel than that changes nothing.
  pub drain_enough :
      (k : ℕ) (p : Pipeline S)
      → drain h (length p.drain_order - p.drain_index + k) p ≡ drain_loop h p
  unfolding drain_loop
  drain_enough zero p = rw add-zero
  drain_enough (suc k) p = rw add-suc (drain-suc _ p (omega arith) ∙ drain_enough k p)

  stop-drain_loop : (p : Pipeline S) → p.state ≡ PipelineState.draining → stop h p ≡ drain_loop h p
  unfolding stop
  stop-drain_loop p d = ap (λ s. stop_in h s p) d

  stop_active-cons :
      (l : List String) (p : Pipeline S) → l ≢ [] → stop_active h l p ≡ enter_drain h p.state p
  unfolding stop_active
  stop_active-cons [] p ne = absurd (ne refl)
  stop_active-cons (id ∷ l) p ne = refl

  stop-enter :
      (p : Pipeline S)
      → p.state ≡ PipelineState.running
      → p.drain_order ≢ []
      → stop h p ≡ drain_loop h (record p { drain_index = 0; state = PipelineState.draining })
  unfolding stop
  stop-enter p d ne =
      ap (λ s. stop_in h s p) d
      ∙ stop_active-cons p.drain_order p ne
      ∙ ap (λ s. enter_drain h s p) d

  -- A call of `stop` that returns, on a draining pipeline all of whose nodes are in its drain
  -- order, has one of three results. It is ok, and the pipeline has stopped with every node back
  -- in its initial state; it is not ok, and the pipeline is in its error state; or it asks for
  -- another call, and the pipeline drains on, with the same nodes and at no earlier node than
  -- before.
  pub stop-draining :
      (p : Pipeline S) (st : Status)
      → p.state ≡ PipelineState.draining
      → Covers p
      → (stop h p).0 ≡ returned st
      → Ends st p (stop h p).1
  unfolding drain_loop drain
  stop-draining p st d c e =
      let o = stop-drain_loop p d in
      rw (o, drain_loop) (drain-Ends h (length p.drain_order - p.drain_index) p st d c (rw o at e))

  -- A call of `stop` on a running pipeline that has nodes, all of them to be drained, and that returns
  -- has one of three results. It is ok, and the pipeline has stopped with every node back in its
  -- initial state; it is not ok, and the pipeline is in its error state; or it asks for another
  -- call, and the pipeline drains, with the same nodes and from its first one on.
  pub stop-running :
      (p : Pipeline S) (st : Status)
      → p.state ≡ PipelineState.running
      → Covers p
      → p.drain_order ≢ []
      → (stop h p).0 ≡ returned st
      → Ends st (record p { drain_index = 0 }) (stop h p).1
  unfolding drain_loop drain
  stop-running p st d c ne e =
      let o = stop-enter p d ne in
      let p' = record p { drain_index = 0; state = PipelineState.draining } in
      rw o (
        Ends-later h st (record p { drain_index = 0 }) p' _ refl (omega arith)
          (drain-Ends h (length p.drain_order - 0) p' st refl c (rw o at e)))
