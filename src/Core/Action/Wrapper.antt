-- ===== src/Core/Action/Wrapper.antt =====
-- An action as the state machine holds it: its fields, the methods that its class may override,
-- and the wrapper that `addAction` puts round it (core/action_wrappers.h, .cpp).
use libworkflow.Prelude.{String, Bool, true, false, some, List, [], ◌∷◌, ◌++◌, if◌then◌else◌}
use libworkflow.Prelude.Int.{ℤ}
use libworkflow.Prelude.Outcome.{Outcome, ok, deref, ◌>>=◌}
use libworkflow.Core.Target.{error}
use libworkflow.Core.Request.{Request, create_reply, set_request_context, set_error_report}
use libworkflow.Core.Session.{Session, get_last_request, get_input, up_current_execution_level}
use libworkflow.Core.Action.Contract.{
  ActionData, check_inputs, check_outputs, expect_input, expect_output, new_action,
}
use libworkflow.Core.Action.Results.{
  Performed, next_perform, default_perform, default_reply_received,
}
use libworkflow.Tools.ErrorReport.{ErrorReport, with_parent}

-- The virtual methods, each given the fields of the object that it is called on.
pub record Methods : Type 0 where
  pub check_inputs : ActionData → Session → ErrorReport → Outcome (Bool × ErrorReport)
  pub check_outputs : ActionData → Session → ErrorReport → Outcome (Bool × ErrorReport)
  pub can_perform : ActionData → Session → ErrorReport → Bool × ErrorReport
  pub can_handle_error : ActionData → Session → Bool
  pub perform : ActionData → Session → Outcome Performed
  pub reply_received : ActionData → Session → Request → Outcome Performed
  pub expect_input : ActionData → String → ErrorReport
  pub expect_output : ActionData → String → ErrorReport

unfoldable pub default_methods : Methods
unfolding check_inputs check_outputs default_perform default_reply_received
default_methods = record {
  check_inputs = check_inputs;
  check_outputs = check_outputs;
  can_perform = λ a session er. (true, er);
  can_handle_error = λ a session. false;
  perform = default_perform;
  reply_received = default_reply_received;
  expect_input = expect_input;
  expect_output = expect_output;
}

unfoldable pub next_methods : Methods
unfolding default_methods next_perform
next_methods = record default_methods { perform = next_perform }

pub data WrapperKind : Type 0 where
  unwrapped interrupt_wrapper error_wrapper finish_wrapper cleanup_wrapper : WrapperKind

pub record Action : Type 0 where
  pub wrapper : WrapperKind
  pub fields : ActionData
  pub methods : Methods

unfoldable pub plain_action : ActionData → Methods → Action
plain_action a m = record { wrapper = unwrapped; fields = a; methods = m }

abbrev pub is_wrapped : WrapperKind → Bool
is_wrapped unwrapped = false
is_wrapped _ = true

-- `getInputs`, `getOutputs`, `expectInput` and `expectOutput` are not forwarded by a wrapper, whose
-- own maps are empty.
unfoldable pub contract : Action → ActionData
unfolding new_action
contract act =
    if is_wrapped act.wrapper then record act.fields { inputs = []; outputs = [] } else act.fields

unfoldable pub action_expect_input : Action → String → ErrorReport
unfolding contract
action_expect_input act key =
    if is_wrapped act.wrapper
    then expect_input (contract act) key
    else act.methods.expect_input act.fields key

unfoldable pub action_expect_output : Action → String → ErrorReport
unfolding contract
action_expect_output act key =
    if is_wrapped act.wrapper
    then expect_output (contract act) key
    else act.methods.expect_output act.fields key

-- `FinishWrapper::wrapPerform` gives the reply the input for every expected output. The input is
-- read by force, so the contract of the wrapper does not matter.
unfoldable pub fill_reply : ℤ → List String → Session → Request → Request
unfolding set_request_context
fill_reply id [] session r = r
fill_reply id (output ∷ os) session r =
    fill_reply id os session (set_request_context r output (get_input id output session))

-- `wrapPerform` of each wrapper: the session, and the request given to the controller manager.
-- `InterruptWrapper` builds a request for each subquery and drops it.
unfoldable pub wrap_perform :
    WrapperKind → ActionData → (expected : List String) → Session → Outcome (Session × List Request)
unfolding up_current_execution_level fill_reply create_reply set_error_report
wrap_perform unwrapped a expected session = ok (session, [])
wrap_perform interrupt_wrapper a expected session = ok (up_current_execution_level session, [])
wrap_perform cleanup_wrapper a expected session = ok (up_current_execution_level session, [])
wrap_perform finish_wrapper a expected session = deref session.request >>= λ original. ok (
  up_current_execution_level session,
  fill_reply a.action_id expected session (create_reply original) ∷ [],
)
wrap_perform error_wrapper a expected session = deref (get_last_request session) >>= λ latest.
    deref session.request >>= λ original.
    let answer =
      set_error_report (create_reply original)
        (some (with_parent original.target latest.report "" "")) in
    ok (
      up_current_execution_level session,
      record answer { target = record answer.target { target = error } } ∷ [],
    )

-- `ActionWrapper::perform`, or the method itself.
unfoldable pub perform : Action → (expected : List String) → Session → Outcome Performed
unfolding wrap_perform
perform act expected session = wrap_perform act.wrapper act.fields expected session >>= λ before.
    act.methods.perform act.fields before.0 >>= λ p. ok (record p { sent = before.1 ++ p.sent })

-- The hooks round `replyReceived` do nothing.
unfoldable pub reply_received : Action → Session → Request → Outcome Performed
reply_received act session req = act.methods.reply_received act.fields session req
