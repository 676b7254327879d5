-- ===== src/Media/BackendNode/Balance/Gap.antt =====
-- What one call of the methods of src/media/backend_node.cpp does to the values that are under way.
use mathlib.Core.List.{append-nil}
use eavp.Base.{
  ◌≡◌, refl, sym, ap, ◌∙◌, inl, inr, true, false, List, [], ◌∷◌, ◌++◌, Option, none, Bool-cases,
}
use eavp.Status.{Status, is_ok, Result, success, failure}
use eavp.Media.Node.{Outcome, returned, thrown}
use eavp.Media.Flow.Rules.{Holds}
use eavp.Media.BackendNode.{Backend, BackendNode, of_outcome, call}
use eavp.Media.BackendNode.Balance.{
  held, Logged, Recorded, plain, log_submit, log_receive, logged, Balanced,
}

module _ {B P V W : Type 0} where
  -- The inputs `x` were given and not taken, the outputs `y` were given and not taken, and the node
  -- holds `i` and `o`.
  pub record Gap (x : List V) (y : List W) (i : Option V) (o : Option W)
      (s : BackendNode (Logged B V W) (Recorded P V W) V W) : Type 0 where
    pub inputs : s.ports.taken ≡ s.backend.accepted ++ x
    pub outputs : s.backend.received ≡ s.ports.delivered ++ y
    pub input : s.pending_input ≡ i
    pub output : s.pending_output ≡ o

  pub Gap-Balanced :
      (i : Option V) (o : Option W) (s : BackendNode (Logged B V W) (Recorded P V W) V W)
      → Gap (held i) (held o) i o s
      → Balanced s
  Gap-Balanced i o s g = record {
    inputs = g.inputs ∙ ap (λ (j : Option V). s.backend.accepted ++ held j) (sym g.input);
    outputs = g.outputs ∙ ap (λ (j : Option W). s.ports.delivered ++ held j) (sym g.output);
  }

  pub Balanced-Gap :
      (s : BackendNode (Logged B V W) (Recorded P V W) V W)
      → Balanced s
      → Gap (held s.pending_input) (held s.pending_output) s.pending_input s.pending_output s
  Balanced-Gap s h = record { inputs = h.inputs; outputs = h.outputs; input = refl; output = refl }

  pub Gap-hold_input :
      {x : List V} {y : List W} {i : Option V} {o : Option W} (j : Option V)
      (s : BackendNode (Logged B V W) (Recorded P V W) V W)
      → Gap x y i o s
      → Gap x y j o (record s { pending_input = j })
  Gap-hold_input j s g = record {
    inputs = g.inputs;
    outputs = g.outputs;
    input = refl;
    output = g.output;
  }

  pub Gap-hold_output :
      {x : List V} {y : List W} {i : Option V} {o : Option W} (q : Option W)
      (s : BackendNode (Logged B V W) (Recorded P V W) V W)
      → Gap x y i o s
      → Gap x y i q (record s { pending_output = q })
  Gap-hold_output q s g = record {
    inputs = g.inputs;
    outputs = g.outputs;
    input = g.input;
    output = refl;
  }

  -- After a submission: the backend has taken the input, or it is still under way.
  pub data Offered (v : V) (y : List W) (i : Option V) (o : Option W) (st : Status)
      (s : BackendNode (Logged B V W) (Recorded P V W) V W) : Type 0 where
    taken : is_ok st ≡ true → Gap [] y i o s → Offered v y i o st s
    refused : is_ok st ≡ false → Gap (v ∷ []) y i o s → Offered v y i o st s

  -- After the send of what is pending.
  pub data Flushed (x : List V) (i : Option V) (o : Option W) (st : Status)
      (s : BackendNode (Logged B V W) (Recorded P V W) V W) : Type 0 where
    flushed : Gap x [] i none s → Flushed x i o st s
    stuck : is_ok st ≡ false → Gap x (held o) i o s → Flushed x i o st s

  -- After the backend was asked for an output.
  unfoldable pub Fetched :
      List V
      → Option V
      → Option W
      → Result (Option W)
      → BackendNode (Logged B V W) (Recorded P V W) V W
      → Type 0
  Fetched x i o (success w) s = Gap x (held w) i o s
  Fetched x i o (failure st) s = Gap x [] i o s

  -- After the input port was asked for an input.
  unfoldable pub Taken :
      List W
      → Option V
      → Option W
      → Result V
      → BackendNode (Logged B V W) (Recorded P V W) V W
      → Type 0
  Taken y i o (success v) s = Gap (v ∷ []) y i o s
  Taken y i o (failure st) s = Gap [] y i o s

module _ {B P V W : Type 0} (D : Status → BackendNode (Logged B V W) (Recorded P V W) V W → Type 0)
    (E : BackendNode (Logged B V W) (Recorded P V W) V W → Type 0) where
  submitted :
      (r : Outcome Status × B) (v : V) (y : List W) (i : Option V) (o : Option W)
      (s : BackendNode (Logged B V W) (Recorded P V W) V W)
      → Gap (v ∷ []) y i o s
      → ((t : BackendNode (Logged B V W) (Recorded P V W) V W) → Gap (v ∷ []) y i o t → E t)
      → Holds D E (Offered v y i o) (of_outcome (log_submit v r s.backend) s)
  unfolding log_submit of_outcome Holds
  submitted (thrown e, b') v y i o s g k =
      k _ (record { inputs = g.inputs; outputs = g.outputs; input = g.input; output = g.output })
  submitted (returned st, b') v y i o s g k = elim (Bool-cases (is_ok st)) [
    | inl e ↦ rw e (
        taken e (record {
          inputs = g.inputs ∙ sym (append-nil (s.backend.accepted ++ (v ∷ [])));
          outputs = g.outputs;
          input = g.input;
          output = g.output;
        }))
    | inr e ↦ rw e (
        refused e
          (record { inputs = g.inputs; outputs = g.outputs; input = g.input; output = g.output }))
  ]

  -- A call of `submit`.
  pub submit-Holds :
      (b : Backend B V W) (v : V) (y : List W) (i : Option V) (o : Option W)
      (s : BackendNode (Logged B V W) (Recorded P V W) V W)
      → Gap (v ∷ []) y i o s
      → ((t : BackendNode (Logged B V W) (Recorded P V W) V W) → Gap (v ∷ []) y i o t → E t)
      → Holds D E (Offered v y i o) (call ((logged b).submit v) s)
  unfolding call logged
  submit-Holds b v y i o s g k = submitted (b.submit v s.backend.backend) v y i o s g k

  fetched :
      (r : Outcome (Result (Option W)) × B) (x : List V) (i : Option V) (o : Option W)
      (s : BackendNode (Logged B V W) (Recorded P V W) V W)
      → Gap x [] i o s
      → ((t : BackendNode (Logged B V W) (Recorded P V W) V W) → Gap x [] i o t → E t)
      → Holds D E (Fetched x i o) (of_outcome (log_receive r s.backend) s)
  unfolding log_receive of_outcome Holds Fetched
  fetched (thrown e, b') x i o s g k =
      k _ (record { inputs = g.inputs; outputs = g.outputs; input = g.input; output = g.output })
  fetched (returned (failure st), b') x i o s g k = record {
    inputs = g.inputs;
    outputs = g.outputs;
    input = g.input;
    output = g.output;
  }
  fetched (returned (success w), b') x i o s g k = record {
    inputs = g.inputs;
    outputs = ap (λ (l : List W). l ++ held w) (g.outputs ∙ append-nil s.ports.delivered);
    input = g.input;
    output = g.output;
  }

  -- A call of `receive`.
  pub receive-Holds :
      (b : Backend B V W) (x : List V) (i : Option V) (o : Option W)
      (s : BackendNode (Logged B V W) (Recorded P V W) V W)
      → Gap x [] i o s
      → ((t : BackendNode (Logged B V W) (Recorded P V W) V W) → Gap x [] i o t → E t)
      → Holds D E (Fetched x i o) (call (logged b).receive s)
  unfolding call logged
  receive-Holds b x i o s g k = fetched (b.receive s.backend.backend) x i o s g k

  plain-Holds :
      {x : List V} {y : List W} {i : Option V} {o : Option W} (r : Outcome Status × B)
      (s : BackendNode (Logged B V W) (Recorded P V W) V W)
      → Gap x y i o s
      → ((t : BackendNode (Logged B V W) (Recorded P V W) V W) → Gap x y i o t → E t)
      → Holds D E (λ st. Gap x y i o) (of_outcome (plain r s.backend) s)
  unfolding plain of_outcome Holds
  plain-Holds (thrown e, b') s g k =
      k _ (record { inputs = g.inputs; outputs = g.outputs; input = g.input; output = g.output })
  plain-Holds (returned st, b') s g k = record {
    inputs = g.inputs;
    outputs = g.outputs;
    input = g.input;
    output = g.output;
  }

  -- A call of `begin_drain`.
  pub begin_drain-Holds :
      {x : List V} {y : List W} {i : Option V} {o : Option W} (b : Backend B V W)
      (s : BackendNode (Logged B V W) (Recorded P V W) V W)
      → Gap x y i o s
      → ((t : BackendNode (Logged B V W) (Recorded P V W) V W) → Gap x y i o t → E t)
      → Holds D E (λ st. Gap x y i o) (call (logged b).begin_drain s)
  unfolding call logged
  begin_drain-Holds b s g k = plain-Holds (b.begin_drain s.backend.backend) s g k
