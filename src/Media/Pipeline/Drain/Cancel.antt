-- ===== src/Media/Pipeline/Drain/Cancel.antt =====
-- `MediaPipeline::cancel` (src/media/pipeline.cpp).
use eavp.Base.{◌<◌, ◌≡◌, ◌≢◌, ◌⊎◌, refl, String, List, [], ◌∷◌, some, true, false, arith, inl, inr}
use eavp.StringSet.{count}
use eavp.Status.{Status, is_ok}
use eavp.Media.Node.{NodeState, Node, Hooks}
use eavp.Media.Pipeline.{Pipeline, PipelineState}
use eavp.Media.Pipeline.Formed.{Covers}
use eavp.Media.Pipeline.Nodes.{ids, state_of}
use eavp.Media.Pipeline.Drain.{conclude, cancel, cancel_in, cancel_resets}
use eavp.Media.Pipeline.Drain.Ends.{HasStopped}
use eavp.Media.Pipeline.Drain.Reset.{reset_nodes_reverse-created}

module _ {S : Type 0} (h : Hooks S) where
  cancel_resets-created :
      (l : List String) (p : Pipeline S)
      → ((j : String) → count j l ≡ count j (ids p.nodes)) ⊎ (l ≡ [])
      → is_ok (cancel_resets h l p).0 ≡ true
      → (j : String) → 0 < count j (ids p.nodes)
      → state_of j (cancel_resets h l p).1 ≡ some NodeState.created
  unfolding cancel_resets
  cancel_resets-created [] p c k j m =
      reset_nodes_reverse-created h (ids p.nodes) p.nodes (λ i q. q) k j m
  cancel_resets-created (id ∷ l) p (inl c) k j m =
      reset_nodes_reverse-created h (id ∷ l) p.nodes (λ i q. rw (← c i) q) k j (rw c m)
  cancel_resets-created (id ∷ l) p (inr e) k j m = cc

  conclude-parts :
      (r : Status × List (Node S)) (p : Pipeline S)
      → ((is_ok r.0 ≡ true)
          × (is_ok (conclude h r p).0 ≡ true)
          × ((conclude h r p).1 ≡ record p {
            nodes = r.1;
            state = PipelineState.stopped;
            drain_order = [];
            drain_index = 0;
          }))
        ⊎ ((is_ok (conclude h r p).0 ≡ false) × ((conclude h r p).1.state ≡ PipelineState.error))
  unfolding conclude
  conclude-parts r p = ground arith

  cancel-conclude :
      (p : Pipeline S)
      → p.state ≢ PipelineState.stopped
      → cancel h p ≡ conclude h (cancel_resets h p.drain_order p) p
  unfolding cancel
  cancel-conclude p ne = go p.state ne
    where
      go :
          (s : PipelineState)
          → s ≢ PipelineState.stopped
          → cancel_in h s p ≡ conclude h (cancel_resets h p.drain_order p) p
      go PipelineState.stopped q = absurd (q refl)
      go _ q = refl

  -- A call of `cancel` on a pipeline that has not stopped and whose drain order is empty or has
  -- all its nodes is ok, and the pipeline has stopped with every node that it owns back in its
  -- initial state; or it is not ok, and the pipeline is in its error state.
  pub cancel_stops :
      (p : Pipeline S)
      → p.state ≢ PipelineState.stopped
      → Covers p ⊎ (p.drain_order ≡ [])
      → ((is_ok (cancel h p).0 ≡ true) × HasStopped p (cancel h p).1)
        ⊎ ((is_ok (cancel h p).0 ≡ false) × ((cancel h p).1.state ≡ PipelineState.error))
  cancel_stops p ne c =
      rw (cancel-conclude p ne) (finish (conclude-parts (cancel_resets h p.drain_order p) p))
    where
      r : Status × List (Node S)
      r = cancel_resets h p.drain_order p

      finish :
          ((is_ok r.0 ≡ true)
              × (is_ok (conclude h r p).0 ≡ true)
              × ((conclude h r p).1 ≡ record p {
                nodes = r.1;
                state = PipelineState.stopped;
                drain_order = [];
                drain_index = 0;
              }))
            ⊎ ((is_ok (conclude h r p).0 ≡ false)
                × ((conclude h r p).1.state ≡ PipelineState.error))
          → ((is_ok (conclude h r p).0 ≡ true) × HasStopped p (conclude h r p).1)
            ⊎ ((is_ok (conclude h r p).0 ≡ false)
                × ((conclude h r p).1.state ≡ PipelineState.error))
      finish (inl (a, b, e)) = inl (
        b,
        rw e (record {
          state = refl;
          order = refl;
          index = refl;
          created = λ j m. cancel_resets-created p.drain_order p c a j m;
        }),
      )
      finish (inr f) = inr f
