-- ===== src/Media/Pipeline/Drain/Reset.antt =====
-- The resets of src/media/pipeline.cpp: every node is reset whatever the others do, and the result
-- is ok only if all of them were.
use mathlib.Core.List.{reverse, reverse-cons}
use eavp.Base.{
  ◌<◌, ◌≡◌, refl, ap, ◌∙◌, String, List, [], ◌∷◌, some, str_eq, eq_iff, eq_refl, true, Bool-cases,
  arith, inl, inr,
}
use eavp.StringSet.{count, count-append}
use eavp.Status.{Status, is_ok, ok_status}
use eavp.Media.Node.{NodeState, Node, Hooks, Outcome, returned, reset as reset_node}
use eavp.Media.Node.LifeCycle.{resets}
use eavp.Media.Pipeline.{on_node, caught, first_failure}
use eavp.Media.Pipeline.Nodes.{ids, state_of, ids-operate, state_of-operate, state_of-operate_again}
use eavp.Media.Pipeline.Drain.{reset_each, reset_nodes_reverse}

pub count-reverse : (x : String) (l : List String) → count x (reverse l) ≡ count x l
count-reverse x [] = refl
count-reverse x (y ∷ l) =
    omega (
      arith,
      ap (count x) (reverse-cons y l),
      count-append x (reverse l) (y ∷ []),
      count-reverse x l,
    )

first_failure-ok :
    (a b : Status) → is_ok (first_failure a b) ≡ true → (is_ok a ≡ true) × (is_ok b ≡ true)
unfolding first_failure
first_failure-ok a b h = ground arith

caught-ok : (o : Outcome Status) → is_ok (caught o) ≡ true → o ≡ returned (caught o)
unfolding caught
caught-ok o h = ground arith

module _ {S : Type 0} (h : Hooks S) where
  pub ids-reset_each :
      (l : List String) (first : Status) (ns : List (Node S))
      → ids (reset_each h l first ns).1 ≡ ids ns
  unfolding reset_each
  ids-reset_each [] first ns = refl
  ids-reset_each (id ∷ l) first ns =
      ids-reset_each l _ (on_node id (reset_node h) ns).1 ∙ ids-operate h resets id ns

  reset_each_keep :
      (l : List String) (first : Status) (ns : List (Node S)) (j : String)
      → state_of j ns ≡ some NodeState.created
      → state_of j (reset_each h l first ns).1 ≡ some NodeState.created
  unfolding reset_each
  reset_each_keep [] first ns j e = e
  reset_each_keep (id ∷ l) first ns j e =
      reset_each_keep l _ (on_node id (reset_node h) ns).1 j
        (state_of-operate_again h resets (λ q. cc) id j ns e)

  reset_each-ok :
      (l : List String) (first : Status) (ns : List (Node S))
      → is_ok (reset_each h l first ns).0 ≡ true
      → is_ok first ≡ true
  unfolding reset_each
  reset_each-ok [] first ns e = e
  reset_each-ok (id ∷ l) first ns e =
      (first_failure-ok first (caught (on_node id (reset_node h) ns).0)
        (reset_each-ok l _ (on_node id (reset_node h) ns).1 e)).0

  reset_each-created :
      (l : List String) (first : Status) (ns : List (Node S))
      → ((j : String) → 0 < count j l → 0 < count j (ids ns))
      → is_ok (reset_each h l first ns).0 ≡ true
      → (j : String) → 0 < count j l
      → state_of j (reset_each h l first ns).1 ≡ some NodeState.created
  unfolding reset_each
  reset_each-created [] first ns m e j p = absurd (omega arith)
  reset_each-created (id ∷ l) first ns m e j p =
      let r = on_node id (reset_node h) ns in
      let good = (first_failure-ok first (caught r.0) (reset_each-ok l _ r.1 e)).1 in
      elim (Bool-cases (str_eq j id)) [
        | inl same ↦ rw ((eq_iff j id).0 same) (
            reset_each_keep l _ r.1 id (
              state_of-operate h resets id ns (caught r.0) (m id (ground (arith, eq_refl id)))
                (caught-ok r.0 good) good))
        | inr other ↦
            reset_each-created l _ r.1 (λ i q. rw (ids-operate h resets id ns) (m i (omega arith)))
              e j (ground arith)
      ]

  -- If the resets of the nodes of `l` are reported as ok, each of these nodes is in its initial
  -- state again.
  pub reset_nodes_reverse-created :
      (l : List String) (ns : List (Node S))
      → ((j : String) → 0 < count j l → 0 < count j (ids ns))
      → is_ok (reset_nodes_reverse h l ns).0 ≡ true
      → (j : String) → 0 < count j l
      → state_of j (reset_nodes_reverse h l ns).1 ≡ some NodeState.created
  unfolding reset_nodes_reverse
  reset_nodes_reverse-created l ns m e j p =
      reset_each-created (reverse l) ok_status ns (λ i q. m i (rw (count-reverse i l) at q)) e j
        (rw (count-reverse j l) p)

  pub ids-reset_nodes_reverse :
      (l : List String) (ns : List (Node S)) → ids (reset_nodes_reverse h l ns).1 ≡ ids ns
  unfolding reset_nodes_reverse
  ids-reset_nodes_reverse l ns = ids-reset_each (reverse l) ok_status ns
