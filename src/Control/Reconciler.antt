-- ===== src/Control/Reconciler.antt =====
-- src/control/command.cpp, and src/control/pipeline_reconciler.cpp, which brings a pipeline to the state
-- that a store desires and shows the outcome in another store.
pub mod Called
pub mod Keys
pub mod Shows
mod Tests
use eavp.Base.{Bool, true, false, String, Option, none, some, if◌then◌else◌, str_eq, ◌||◌}
use eavp.Text.{state_key, error_key}
use eavp.Status.{
  Status, ok_status, status, invalid_argument, invalid_state, would_block, is_ok, has_code, Result,
  success, failure,
}
use eavp.Media.Node.{Hooks, Outcome, returned, thrown}
use eavp.Media.Pipeline.{Pipeline}
use eavp.Media.Pipeline.Start.{start}
use eavp.Media.Pipeline.Drain.{stop}
use eavp.Control.StateStore.{StateValue, of_string, as_string, StateStore, set, erase, get}

-- `struct CommandHeader`.
pub record CommandHeader : Type 0 where
  pub id : String
  pub source : String

module _ {Double : Type 0} (double_eq : Double → Double → Bool) where
  -- `PipelineCommandHandler::set_desired`; `none` is the null store.
  pub set_desired :
      CommandHeader
      → String
      → String
      → Option (StateStore Double)
      → Status × Option (StateStore Double)
  set_desired header id want none =
      (status invalid_state "desired state store is not configured", none)
  set_desired header id want (some d) =
      if str_eq header.id "" || str_eq header.source "" || str_eq id ""
      then (status invalid_argument "command fields must not be empty", some d)
      else let r = set double_eq (state_key id) (of_string want) d in (r.0, some r.1)

  -- `PipelineCommandHandler::handle`, of the two commands.
  abbrev pub handle_start :
      CommandHeader → String → Option (StateStore Double) → Status × Option (StateStore Double)
  handle_start header id d = set_desired header id "running" d

  abbrev pub handle_stop :
      CommandHeader → String → Option (StateStore Double) → Status × Option (StateStore Double)
  handle_stop header id d = set_desired header id "stopped" d

  -- `publish_failure`.
  pub publish_failure : String → Status → StateStore Double → Status × StateStore Double
  publish_failure id st a =
      let s = set double_eq (state_key id) (of_string "error") a in
      let e = set double_eq (error_key id) (of_string st.message) s.1 in
      if is_ok s.0 then (if is_ok e.0 then (st, e.1) else e) else s

  -- The end of `reconcile_once` where the pipeline did what was desired.
  pub settle : String → String → StateStore Double → Status × StateStore Double
  settle id want a =
      let c = erase (error_key id) a in
      if is_ok c.0 then set double_eq (state_key id) (of_string want) c.1 else c

  -- What `reconcile_once` does with the result of `start` or `stop`.
  pub publish : String → String → Status → StateStore Double → Status × StateStore Double
  unfolding publish_failure settle
  publish id want st a =
      if is_ok st
      then settle id want a
      else if has_code would_block st
      then (let r = set double_eq (state_key id) (of_string "draining") a in
          (if is_ok r.0 then (st, r.1) else r))
      else publish_failure id st a

  -- `actual_state.ok() && actual_state.value() == desired_state.value()`, where there is a value.
  pub is_text : String → Result String → Bool
  is_text want (success s) = str_eq s want
  is_text want (failure st) = false

  pub is_actual : String → Result (StateValue Double) → Bool
  unfolding is_text
  is_actual want (success v) = is_text want (as_string v)
  is_actual want (failure st) = false

module _ {Double S : Type 0} (double_eq : Double → Double → Bool) (h : Hooks S) where
  published :
      String
      → String
      → Outcome Status × Pipeline S
      → StateStore Double
      → Outcome Status × Pipeline S × StateStore Double
  unfolding publish
  published id want (thrown e, p) a = (thrown e, p, a)
  published id want (returned st, p) a =
      let r = publish double_eq id want st a in (returned r.0, p, r.1)

  -- The call of the pipeline that the desired state asks for.
  pub act :
      String → Pipeline S → StateStore Double → Outcome Status × Pipeline S × StateStore Double
  unfolding published
  act want p a =
      if str_eq want "running"
      then published p.id want (start h p) a
      else if str_eq want "stopped"
      then published p.id want (stop h p) a
      else (returned (status invalid_argument "unsupported desired pipeline state"), p, a)

  pub to_state :
      Result String
      → Pipeline S
      → StateStore Double
      → Outcome Status × Pipeline S × StateStore Double
  unfolding act is_actual
  to_state (failure st) p a = (returned st, p, a)
  to_state (success want) p a =
      if is_actual double_eq want (get (state_key p.id) a)
      then (let r = erase (error_key p.id) a in (returned r.0, p, r.1))
      else act want p a

  pub to_value :
      Result (StateValue Double)
      → Pipeline S
      → StateStore Double
      → Outcome Status × Pipeline S × StateStore Double
  unfolding to_state
  to_value (failure st) p a = (returned st, p, a)
  to_value (success v) p a = to_state (as_string v) p a

  -- `PipelineReconciler::reconcile_once` on three objects that are there.
  pub reconcile :
      StateStore Double
      → Pipeline S
      → StateStore Double
      → Outcome Status × Pipeline S × StateStore Double
  unfolding to_value
  reconcile d p a = to_value (get (state_key p.id) d) p a

  -- `PipelineReconciler::reconcile_once`; `none` is a null pointer.
  pub reconcile_once :
      Option (StateStore Double)
      → Option (Pipeline S)
      → Option (StateStore Double)
      → Outcome Status × Option (Pipeline S) × Option (StateStore Double)
  unfolding reconcile
  reconcile_once (some d) (some p) (some a) = let r = reconcile d p a in (r.0, some r.1, some r.2)
  reconcile_once d p a =
      (returned (status invalid_state "reconciler dependencies are not configured"), p, a)
