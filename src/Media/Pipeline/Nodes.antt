-- ===== src/Media/Pipeline/Nodes.antt =====
-- Calls on the nodes of a pipeline through their ids (`MediaPipeline::nodes_by_id_` of
-- src/media/pipeline.cpp).
use eavp.Base.{
  ◌<◌, ◌≡◌, ◌∙◌, ◌≢◌, refl, String, List, [], ◌∷◌, map, Option, none, some, if◌then◌else◌, str_eq,
  eq_iff, true, arith, ap,
}
use eavp.StringSet.{count}
use eavp.Status.{Status, is_ok}
use eavp.Media.Node.{NodeState, Node, Hooks, Outcome, returned}
use eavp.Media.Node.LifeCycle.{
  operate_again, ticks, Op, operate, operate-allows, operate-target, target,
}
use eavp.Media.Pipeline.{on_node}

module _ {S : Type 0} where
  abbrev pub ids : List (Node S) → List String
  ids = map (λ (n : Node S). n.id)

  -- The state of the node `id`.
  pub state_of : String → List (Node S) → Option NodeState
  state_of id [] = none
  state_of id (n ∷ ns) = if str_eq n.id id then some n.state else state_of id ns

  -- No call renames a node.
  ids-on_node :
      (id : String) (f : Node S → Outcome Status × Node S)
      → ((n : Node S) → (f n).1.id ≡ n.id)
      → (ns : List (Node S)) → ids (on_node id f ns).1 ≡ ids ns
  unfolding on_node
  ids-on_node id f keep [] = refl
  ids-on_node id f keep (n ∷ ns) = ground (arith, keep n, ids-on_node id f keep ns)

  -- A call leaves the other nodes alone.
  state_of-on_node_ne :
      (id j : String) (f : Node S → Outcome Status × Node S)
      → ((n : Node S) → (f n).1.id ≡ n.id)
      → j ≢ id
      → (ns : List (Node S)) → state_of j (on_node id f ns).1 ≡ state_of j ns
  unfolding on_node state_of
  state_of-on_node_ne id j f keep ne [] = refl
  state_of-on_node_ne id j f keep ne (n ∷ ns) =
      ground (arith, keep n, eq_iff n.id id, eq_iff n.id j, state_of-on_node_ne id j f keep ne ns)

  -- What holds of the state of a node after each call of `f` holds after the call through its id.
  state_of-on_node_self :
      (id : String) (f : Node S → Outcome Status × Node S)
      → ((n : Node S) → (f n).1.id ≡ n.id)
      → (st : Status) (s : NodeState) → ((n : Node S) → (f n).0 ≡ returned st → (f n).1.state ≡ s)
      → (ns : List (Node S)) → 0 < count id (ids ns)
      → (on_node id f ns).0 ≡ returned st
      → state_of id (on_node id f ns).1 ≡ some s
  unfolding on_node state_of
  state_of-on_node_self id f keep st s h [] m e = absurd (omega arith)
  state_of-on_node_self id f keep st s h (n ∷ ns) m e = ground (
    arith,
    keep n,
    eq_iff n.id id,
    eq_iff id n.id,
    h n,
    state_of-on_node_self id f keep st s h ns,
  )

  state_of-on_node_keep :
      (id j : String) (f : Node S → Outcome Status × Node S) (s : NodeState)
      → ((n : Node S) → (f n).1.id ≡ n.id)
      → ((n : Node S) → n.state ≡ s → (f n).1.state ≡ s)
      → (ns : List (Node S)) → state_of j ns ≡ some s
      → state_of j (on_node id f ns).1 ≡ some s
  unfolding on_node state_of
  state_of-on_node_keep id j f s keep h [] e = e
  state_of-on_node_keep id j f s keep h (n ∷ ns) e =
      ground (
        arith,
        keep n,
        eq_iff n.id id,
        eq_iff n.id j,
        h n,
        state_of-on_node_keep id j f s keep h ns,
      )

module _ {S : Type 0} (h : Hooks S) where
  pub ids-operate :
      (o : Op) (id : String) (ns : List (Node S)) → ids (on_node id (operate h o) ns).1 ≡ ids ns
  ids-operate o id = ids-on_node id (operate h o) (λ n. (operate-allows h o n).1)

  -- A successful operation leaves the node that it is called on in its target state.
  pub state_of-operate :
      (o : Op) (id : String) (ns : List (Node S)) (st : Status)
      → 0 < count id (ids ns)
      → (on_node id (operate h o) ns).0 ≡ returned st
      → is_ok st ≡ true
      → state_of id (on_node id (operate h o) ns).1 ≡ some (target o)
  state_of-operate o id ns st m e k =
      state_of-on_node_self id (operate h o) (λ n. (operate-allows h o n).1) st (target o)
        (λ n e. operate-target h o n st e k) ns m e

  -- A state that an operation keeps is kept at every node.
  pub state_of-operate_keep :
      (o : Op) (s : NodeState)
      → ((n : Node S) → n.state ≡ s → (operate h o n).1.state ≡ s)
      → (id j : String) (ns : List (Node S)) → state_of j ns ≡ some s
      → state_of j (on_node id (operate h o) ns).1 ≡ some s
  state_of-operate_keep o s k id j ns =
      state_of-on_node_keep id j (operate h o) s (λ n. (operate-allows h o n).1) k ns

  -- A node in the target state of an operation stays there when the operation is called on any node.
  pub state_of-operate_again :
      (o : Op)
      → o ≢ ticks
      → (id j : String) (ns : List (Node S)) → state_of j ns ≡ some (target o)
      → state_of j (on_node id (operate h o) ns).1 ≡ some (target o)
  state_of-operate_again o ne =
      state_of-operate_keep o (target o)
        λ n e. ap (λ (r : Outcome Status × Node S). r.1.state) (operate_again h o n ne e) ∙ e
