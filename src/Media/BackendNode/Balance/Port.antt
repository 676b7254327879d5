-- ===== src/Media/BackendNode/Balance/Port.antt =====
-- What one call of a port in src/media/backend_node.cpp does to the values that are under way.
use mathlib.Core.List.{append-nil}
use mathlib.Core.Path.{subst}
use eavp.Base.{refl, sym, ap, ◌∙◌, List, [], ◌∷◌, ◌++◌, Option, none, some, Bool-cases, inl, inr}
use eavp.Status.{Status, is_ok, Result, success, failure}
use eavp.Media.Flow.Rules.{Holds}
use eavp.Media.BackendNode.{
  Backend, Ports, Messages, BackendNode, sent, send_output, send_pending_output, receive_input,
}
use eavp.Media.BackendNode.Balance.{
  held, Logged, Recorded, record_receive, record_send, recorded, logged,
}
use eavp.Media.BackendNode.Balance.Gap.{Gap, Flushed, flushed, stuck, Taken}

module _ {B P V W : Type 0} (b : Backend B V W) (p : Ports P V W) (text : Messages)
    (D : Status → BackendNode (Logged B V W) (Recorded P V W) V W → Type 0)
    (E : BackendNode (Logged B V W) (Recorded P V W) V W → Type 0) where
  record_receive-Taken :
      (r : Result V × P) (y : List W) (i : Option V) (o : Option W)
      (s : BackendNode (Logged B V W) (Recorded P V W) V W)
      → Gap [] y i o s
      → let q = record_receive r s.ports in Taken y i o q.0 (record s { ports = q.1 })
  unfolding record_receive Taken
  record_receive-Taken (failure st, ps) y i o s g = record {
    inputs = g.inputs;
    outputs = g.outputs;
    input = g.input;
    output = g.output;
  }
  record_receive-Taken (success v, ps) y i o s g = record {
    inputs = ap (λ (l : List V). l ++ (v ∷ [])) (g.inputs ∙ append-nil s.backend.accepted);
    outputs = g.outputs;
    input = g.input;
    output = g.output;
  }

  -- A call of `input_.receive()`.
  pub receive_input-Holds :
      (y : List W) (i : Option V) (o : Option W)
      (s : BackendNode (Logged B V W) (Recorded P V W) V W)
      → Gap [] y i o s
      → Holds D E (Taken y i o) (receive_input (logged b) (recorded p) text s)
  unfolding receive_input recorded Holds
  receive_input-Holds y i o s g = record_receive-Taken (p.receive s.ports.ports) y i o s g

  sent-Holds :
      (r : Status × P) (x : List V) (i : Option V) (w : W)
      (s : BackendNode (Logged B V W) (Recorded P V W) V W)
      → Gap x (w ∷ []) i (some w) s
      → Holds D E
          (Flushed x i (some w))
          (sent (logged b) (recorded p) text (record_send w r s.ports) s)
  unfolding record_send sent Holds
  sent-Holds (st, ps) x i w s g = elim (Bool-cases (is_ok st)) [
    | inl e ↦
        rw (e, e)
          (flushed (record {
            inputs = g.inputs;
            outputs = g.outputs ∙ sym (append-nil (s.ports.delivered ++ (w ∷ [])));
            input = g.input;
            output = refl;
          }))
    | inr e ↦
        rw (e, e)
          (stuck e
            (record { inputs = g.inputs; outputs = g.outputs; input = g.input; output = g.output }))
  ]

  send_output-Holds :
      (x : List V) (i : Option V) (o : Option W)
      (s : BackendNode (Logged B V W) (Recorded P V W) V W)
      → Gap x (held o) i o s
      → Holds D E (Flushed x i o) (send_output (logged b) (recorded p) text o s)
  unfolding send_output recorded Holds
  send_output-Holds x i none s g = flushed g
  send_output-Holds x i (some w) s g = sent-Holds (p.send w s.ports.ports) x i w s g

  -- A call of `send_pending_output`.
  pub send_pending_output-Holds :
      (x : List V) (i : Option V) (o : Option W)
      (s : BackendNode (Logged B V W) (Recorded P V W) V W)
      → Gap x (held o) i o s
      → Holds D E (Flushed x i o) (send_pending_output (logged b) (recorded p) text s)
  unfolding send_pending_output
  send_pending_output-Holds x i o s g =
      subst
        (λ (q : Option W). Holds D E (Flushed x i o) (send_output (logged b) (recorded p) text q s))
        (sym g.output) (send_output-Holds x i o s g)
