-- ===== src/Media/BackendNode/Balance.antt =====
-- What the nodes of src/media/backend_node.cpp take in and give out: the calls of the backend and of
-- the ports are written down, and compared with what a node holds.
pub mod Gap
pub mod Tick
pub mod Port
use mathlib.Core.List.{append-nil, append_assoc}
use eavp.Base.{
  ◌≡◌, refl, sym, ap, ◌∙◌, ◌⊎◌, inl, inr, Bool, true, false, ◌||◌, List, [], ◌∷◌, ◌++◌, Option,
  none, some, if◌then◌else◌, Bool-cases,
}
use eavp.Status.{Status, ok_status, is_ok, has_code, would_block, Result, success, failure}
use eavp.Media.Node.{Exception, Outcome, returned, thrown}
use eavp.Media.Flow.{Flow, next, done, raised, Step, after}
use eavp.Media.Flow.Rules.{Holds, Holds-after, Holds-ensure}
use eavp.Media.BackendNode.{
  Backend, Ports, Messages, BackendNode, of_outcome, call, hold_input, hold_output, sent,
  send_output, send_pending_output, offer,
}

-- A value that is held, or nothing.
abbrev pub held {ℓ} : {A : Type ℓ} → Option A → List A
held none = []
held (some a) = a ∷ []

-- A backend with the inputs that it took and the outputs that it gave, oldest first.
pub record Logged (B V W : Type 0) : Type 0 where
  pub backend : B
  pub accepted : List V
  pub received : List W

-- The ports with the inputs that they gave and the outputs that they took, oldest first.
pub record Recorded (P V W : Type 0) : Type 0 where
  pub ports : P
  pub taken : List V
  pub delivered : List W

module _ {B V W : Type 0} where
  pub plain : {A : Type 0} → Outcome A × B → Logged B V W → Outcome A × Logged B V W
  plain r l = (r.0, record l { backend = r.1 })

  pub log_submit : V → Outcome Status × B → Logged B V W → Outcome Status × Logged B V W
  log_submit v (returned st, b) l =
      if is_ok st
      then (returned st, record l { backend = b; accepted = l.accepted ++ (v ∷ []) })
      else (returned st, record l { backend = b })
  log_submit v (thrown e, b) l = (thrown e, record l { backend = b })

  pub log_receive :
      Outcome (Result (Option W)) × B → Logged B V W → Outcome (Result (Option W)) × Logged B V W
  log_receive (returned (success w), b) l =
      (returned (success w), record l { backend = b; received = l.received ++ held w })
  log_receive (returned (failure st), b) l = (returned (failure st), record l { backend = b })
  log_receive (thrown e, b) l = (thrown e, record l { backend = b })

  -- A backend that writes its log.
  unfoldable pub logged : Backend B V W → Backend (Logged B V W) V W
  unfolding plain log_submit log_receive
  logged b = record {
    configure = λ l. plain (b.configure l.backend) l;
    submit = λ v l. log_submit v (b.submit v l.backend) l;
    receive = λ l. log_receive (b.receive l.backend) l;
    begin_drain = λ l. plain (b.begin_drain l.backend) l;
    reset = λ l. plain (b.reset l.backend) l;
  }

module _ {P V W : Type 0} where
  pub record_receive : Result V × P → Recorded P V W → Result V × Recorded P V W
  record_receive (success v, p) l = (success v, record l { ports = p; taken = l.taken ++ (v ∷ []) })
  record_receive (failure st, p) l = (failure st, record l { ports = p })

  pub record_send : W → Status × P → Recorded P V W → Status × Recorded P V W
  record_send w (st, p) l =
      if is_ok st
      then (st, record l { ports = p; delivered = l.delivered ++ (w ∷ []) })
      else (st, record l { ports = p })

  -- Ports that write their log.
  unfoldable pub recorded : Ports P V W → Ports (Recorded P V W) V W
  unfolding record_receive record_send
  recorded p = record {
    receive = λ l. record_receive (p.receive l.ports) l;
    send = λ w l. record_send w (p.send w l.ports) l;
  }

module _ {B P V W : Type 0} where
  -- Each input that the ports gave was taken by the backend or is held, in order; each output that
  -- the backend gave was taken by the ports or is held, in order.
  pub record Balanced (s : BackendNode (Logged B V W) (Recorded P V W) V W) : Type 0 where
    pub inputs : s.ports.taken ≡ s.backend.accepted ++ held s.pending_input
    pub outputs : s.backend.received ≡ s.ports.delivered ++ held s.pending_output
