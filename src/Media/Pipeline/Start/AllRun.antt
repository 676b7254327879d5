-- ===== src/Media/Pipeline/Start/AllRun.antt =====
-- After a successful `MediaPipeline::start` (src/media/pipeline.cpp) every node runs.
use eavp.Base.{
  ℕ, ◌<◌, ◌^◌, ◌≡◌, ◌≢◌, ◌∙◌, sym, refl, String, List, [], ◌∷◌, ◌++◌, some, str_eq, eq_iff, eq_refl,
  true, false, arith, ap, inl, inr, Bool-cases,
}
use eavp.StringSet.{count}
use eavp.Status.{Status, is_ok, success}
use eavp.Media.Graph.{topological_order}
use eavp.Media.Node.{
  NodeState, Node, Hooks, Outcome, returned, Outcome-cases, prepare, start as start_node,
}
use eavp.Media.Node.LifeCycle.{Op, prepares, starts, operate}
use eavp.Media.Pipeline.{on_node, Pipeline, PipelineState}
use eavp.Media.Pipeline.Formed.{Covers, IsFormed, order-nodes}
use eavp.Media.Pipeline.Nodes.{state_of-operate_again, ids, state_of, ids-operate, state_of-operate}
use eavp.Media.Pipeline.Start.{
  prepare_each, start_each, start_prepared, start_ordered, start_sorted, start, abort,
}

-- A running pipeline: its nodes run, and all of them are to be drained, from the first on.
pub record IsRunning {S : Type 0} (p q : Pipeline S) : Type 0 where
  pub state : q.state ≡ PipelineState.running
  pub runs : (j : String) → 0 < count j (ids p.nodes) → state_of j q.nodes ≡ some NodeState.running
  pub covers : Covers q
  pub filled : q.drain_order ≢ []
  pub first : q.drain_index ≡ 0

record HasStarted {S : Type 0} (order : List String) (p q : Pipeline S) : Type 0 where
  state : q.state ≡ PipelineState.running
  runs : (j : String) → 0 < count j order → state_of j q.nodes ≡ some NodeState.running
  drain_order : q.drain_order ≡ order
  drain_index : q.drain_index ≡ p.drain_index
  same : ids q.nodes ≡ ids p.nodes

module _ {S : Type 0} (h : Hooks S) where
  start_each-cons :
      (id : String) (l : List String) (ns : List (Node S)) (st : Status)
      → (start_each h (id ∷ l) ns).0 ≡ returned st
      → is_ok st ≡ true
      → let r = on_node id (start_node h) ns in
        (a : Status) × (r.0 ≡ returned a)
        × (is_ok a ≡ true)
        × (start_each h (id ∷ l) ns ≡ start_each h l r.1)
  unfolding start_each
  start_each-cons id l ns st e k = elim (Outcome-cases (on_node id (start_node h) ns).0) [
    | inr (x, q) ↦ ground arith
    | inl (a, q) ↦ elim (Bool-cases (is_ok a)) [
      | inr b ↦ ground arith
      | inl b ↦ (a, q, b, ground arith)
    ]
  ]

  start_each_keep :
      (l : List String) (ns : List (Node S)) (j : String)
      → state_of j ns ≡ some NodeState.running
      → state_of j (start_each h l ns).1 ≡ some NodeState.running
  unfolding start_each
  start_each_keep [] ns j e = e
  start_each_keep (id ∷ l) ns j e = ground (
    arith,
    state_of-operate_again h starts (λ q. cc) id j ns e,
    start_each_keep l (on_node id (start_node h) ns).1 j,
  )

  later_members :
      (o : Op) (id : String) (l : List String) (ns : List (Node S))
      → ((j : String) → 0 < count j (id ∷ l) → 0 < count j (ids ns))
      → (j : String) → 0 < count j l
      → 0 < count j (ids (on_node id (operate h o) ns).1)
  later_members o id l ns m j p = rw (ids-operate h o id ns) (m j (omega arith))

  start_each-runs :
      (l : List String) (ns : List (Node S)) (st : Status)
      → ((j : String) → 0 < count j l → 0 < count j (ids ns))
      → (start_each h l ns).0 ≡ returned st
      → is_ok st ≡ true
      → (j : String) → 0 < count j l
      → state_of j (start_each h l ns).1 ≡ some NodeState.running
  start_each-runs [] ns st m e k j p = absurd (omega arith)
  start_each-runs (id ∷ l) ns st m e k j p =
      let (a, q, b, c) = start_each-cons id l ns st e k in
      rw c (elim (Bool-cases (str_eq j id)) [
        | inl same ↦ rw ((eq_iff j id).0 same) (
            start_each_keep l _ id
              (state_of-operate h starts id ns a (m id (ground (arith, eq_refl id))) q b))
        | inr other ↦
            start_each-runs l (on_node id (start_node h) ns).1 st (later_members starts id l ns m)
              (ap (λ (r : Outcome Status × List (Node S)). r.0) (sym c) ∙ e) k j (ground arith)
      ])

  ids-start_each : (l : List String) (ns : List (Node S)) → ids (start_each h l ns).1 ≡ ids ns
  unfolding start_each
  ids-start_each [] ns = refl
  ids-start_each (id ∷ l) ns =
      ground (arith, ids-operate h starts id ns, ids-start_each l (on_node id (start_node h) ns).1)

  ids-prepare_each :
      (l : List String) (ns : List (Node S)) (done : List String)
      → ids (prepare_each h l ns done).1 ≡ ids ns
  unfolding prepare_each
  ids-prepare_each [] ns done = refl
  ids-prepare_each (id ∷ l) ns done = ground (
    arith,
    ids-operate h prepares id ns,
    ids-prepare_each l (on_node id (prepare h) ns).1 (done ++ (id ∷ [])),
  )

  start-sorted :
      (p : Pipeline S) (st : Status)
      → p.state ≢ PipelineState.running
      → (start h p).0 ≡ returned st
      → is_ok st ≡ true
      → start h p
        ≡ start_sorted h
            (topological_order p.graph)
            (record p { drain_order = []; drain_index = 0 })
  unfolding start
  start-sorted p st ne e k = ground arith

  abort_fails :
      (a : Status) (prepared : List String) (p : Pipeline S) (st : Status)
      → (abort h a prepared p).0 ≡ returned st
      → is_ok a ≡ false
      → is_ok st ≡ false
  unfolding abort
  abort_fails a prepared p st e k = ground arith

  -- A successful start is that of the nodes that were prepared before.
  start_prepared-parts :
      (order prepared : List String) (p : Pipeline S) (st : Status)
      → (start_prepared h order prepared p).0 ≡ returned st
      → is_ok st ≡ true
      → (a : Status) × ((start_each h order p.nodes).0 ≡ returned a)
        × (is_ok a ≡ true)
        × ((start_prepared h order prepared p).1
            ≡ record p { nodes = (start_each h order p.nodes).1; state = PipelineState.running })
  unfolding start_prepared
  start_prepared-parts order prepared p st e k =
      elim (Outcome-cases (start_each h order p.nodes).0) [
        | inr (x, q) ↦ ground arith
        | inl (a, q) ↦ elim (Bool-cases (is_ok a)) [
          | inl b ↦ (a, q, b, ground arith)
          | inr b ↦ ground (
            arith,
            abort_fails a prepared (record p { nodes = (start_each h order p.nodes).1 }) st,
          )
        ]
      ]

  start_prepared-HasStarted :
      (order prepared : List String) (p : Pipeline S) (st : Status)
      → ((j : String) → 0 < count j order → 0 < count j (ids p.nodes))
      → (start_prepared h order prepared p).0 ≡ returned st
      → is_ok st ≡ true
      → p.drain_order ≡ order
      → HasStarted order p (start_prepared h order prepared p).1
  start_prepared-HasStarted order prepared p st m e k o =
      let (a, q, b, c) = start_prepared-parts order prepared p st e k in
      record {
        state = ap (λ (t : Pipeline S). t.state) c;
        runs = λ j l. rw c (start_each-runs order p.nodes a m q b j l);
        drain_order = ap (λ (t : Pipeline S). t.drain_order) c ∙ o;
        drain_index = ap (λ (t : Pipeline S). t.drain_index) c;
        same = rw c (ids-start_each order p.nodes);
      }

  start_ordered-next :
      (order : List String) (p : Pipeline S) (a : Status)
      → (prepare_each h order p.nodes []).0 ≡ returned a
      → is_ok a ≡ true
      → start_ordered h order p
        ≡ start_prepared h order
            (prepare_each h order p.nodes []).2
            (record p { nodes = (prepare_each h order p.nodes []).1; drain_order = order })
  unfolding start_ordered
  start_ordered-next order p a q b = ground arith

  start_ordered-parts :
      (order : List String) (p : Pipeline S) (st : Status)
      → (start_ordered h order p).0 ≡ returned st
      → is_ok st ≡ true
      → (a : Status) × ((prepare_each h order p.nodes []).0 ≡ returned a) × (is_ok a ≡ true)
  unfolding start_ordered
  start_ordered-parts order p st e k = elim (Outcome-cases (prepare_each h order p.nodes []).0) [
    | inr (x, q) ↦ absurd (ground arith)
    | inl (a, q) ↦ elim (Bool-cases (is_ok a)) [
      | inl b ↦ (a, q, b)
      | inr b ↦ absurd (
          ground (
            arith,
            abort_fails a (prepare_each h order p.nodes []).2
                (record p { nodes = (prepare_each h order p.nodes []).1; drain_order = order }) st,
          ))
    ]
  ]

  start_ordered-HasStarted :
      (order : List String) (p : Pipeline S) (st : Status)
      → ((j : String) → 0 < count j order → 0 < count j (ids p.nodes))
      → (start_ordered h order p).0 ≡ returned st
      → is_ok st ≡ true
      → HasStarted order p (start_ordered h order p).1
  start_ordered-HasStarted order p st m e k =
      let (a, q, b) = start_ordered-parts order p st e k in
      let c = start_ordered-next order p a q b in
      let kept = ids-prepare_each order p.nodes [] in
      let r =
        start_prepared-HasStarted order (prepare_each h order p.nodes []).2
          (record p { nodes = (prepare_each h order p.nodes []).1; drain_order = order }) st
          (λ j l. rw kept (m j l)) (ap (λ (t : Outcome Status × Pipeline S). t.0) (sym c) ∙ e) k
          refl in
      rw c (record {
        state = r.state;
        runs = r.runs;
        drain_order = r.drain_order;
        drain_index = r.drain_index;
        same = r.same ∙ kept;
      })

  sorted-HasStarted :
      (order : List String) (p : Pipeline S) (st : Status)
      → ((j : String) → 0 < count j order → 0 < count j (ids p.nodes))
      → (start_sorted h (success order) p).0 ≡ returned st
      → is_ok st ≡ true
      → (order ≢ []) × HasStarted order p (start_sorted h (success order) p).1
  unfolding start_sorted
  sorted-HasStarted [] p st m e k = absurd (ground arith)
  sorted-HasStarted (id ∷ l) p st m e k = ((λ q. cc), start_ordered-HasStarted (id ∷ l) p st m e k)

  -- A call of `start` that returns an ok status, on a pipeline that was not running, whose nodes
  -- are those of its graph, and whose graph calls of `add_node` and `connect` have built with
  -- fewer than 2 ^ 64 edges, leaves the pipeline running, each of its nodes running, and all of
  -- them, from the first one on, to be drained.
  pub start_runs :
      (n : ℕ) (p : Pipeline S) (st : Status)
      → IsFormed n p
      → n < 2 ^ 64
      → p.state ≢ PipelineState.running
      → (start h p).0 ≡ returned st
      → is_ok st ≡ true
      → IsRunning p (start h p).1
  start_runs n p st f few ne e k =
      let (order, found, same) = order-nodes n p f few in
      let p' = record p { drain_order = []; drain_index = 0 } in
      let o : start h p ≡ start_sorted h (success order) p' =
        rw found at (start-sorted p st ne e k) in
      let (filled, r) =
        sorted-HasStarted order p' st (λ j l. rw (← same j) l)
          (ap (λ (t : Outcome Status × Pipeline S). t.0) (sym o) ∙ e) k in
      rw o (record {
        state = r.state;
        runs = λ j l. r.runs j (rw (same j) l);
        covers = λ j. rw (r.drain_order, r.same) (same j);
        filled = λ q. filled (sym r.drain_order ∙ q);
        first = r.drain_index;
      })
