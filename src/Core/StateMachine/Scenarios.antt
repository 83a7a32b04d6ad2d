-- ===== src/Core/StateMachine/Scenarios.antt =====
-- Small workflows and sessions, for the tests.
use libworkflow.Prelude.{Bool, false, ◌≡◌, some, List, [], ◌∷◌}
use libworkflow.Prelude.Int.{ℤ, pos}
use libworkflow.Prelude.Outcome.{Outcome, ok, fault, ◌>>=◌}
use libworkflow.Core.Target.{new_target}
use libworkflow.Core.Step
use libworkflow.Core.Request.{Request, new_request}
use libworkflow.Core.Session.{Session, new_session, unplanned, waiting}
use libworkflow.Core.Action.Contract.{new_action}
use libworkflow.Core.Action.Results.{result_done}
use libworkflow.Core.Action.Wrapper.{Action, plain_action, default_methods}
use libworkflow.Core.StateMachine.Layout.{
  StateMachine, empty_machine, init, add_action, add_input, next_action, link,
}
use libworkflow.Core.StateMachine.Execution.{Run}
use libworkflow.Core.StateMachine.Built.{BuiltKeeping, started, with_action, with_input}

abbrev pub asked : Request
asked = new_request (new_target "default" "split" 7 0) (new_target "default" "caller" 8 0)

-- The split of tests/test_13.cpp: 0 leads to 1 and 2, and both lead to `Finish`.
abbrev pub split : StateMachine
split =
    add_input (record { workflow_input = ""; action_id = pos 0; action_input = "" })
      (add_action (pos 2) next_action (link (pos 2) Step.finish ∷ []) (
        add_action (pos 1) next_action (link (pos 1) Step.finish ∷ []) (
          add_action (pos 0) next_action (link (pos 0) (pos 1) ∷ link (pos 0) (pos 2) ∷ [])
            (init empty_machine))))

abbrev pub fresh_run : Run
fresh_run = record { session = new_session; sent = []; ended = [] }

abbrev pub ends : Outcome (Bool × Run) → Outcome (List Request × List Request)
ends o = o >>= λ b. ok (b.1.sent, b.1.ended)

pub split_Built :
    (kept : ℤ → Bool)
    → kept (pos 0) ≡ false
    → kept (pos 1) ≡ false
    → kept (pos 2) ≡ false
    → BuiltKeeping kept split
split_Built kept zeroth first second = with_input _ (
    with_action (pos 2) _ _ second
      (with_action (pos 1) _ _ first (with_action (pos 0) _ _ zeroth started)))

-- An action that takes its reply.
abbrev pub patient : Action
patient = plain_action (new_action "Patient") (record default_methods {
  reply_received = λ a s req. ok (record { session = s; sent = []; result = result_done a });
})

-- 0 asks somebody, and leads to `Finish`.
abbrev pub asking : StateMachine
asking = add_action (pos 0) patient (link (pos 0) Step.finish ∷ []) (init empty_machine)

-- A session in which the action 0 waits for its reply.
abbrev pub waiting_session : Session
waiting_session = record new_session {
  request = some asked;
  requests = asked ∷ [];
  status =
      (Step.cleanup, unplanned)
      ∷ (Step.error, unplanned)
      ∷ (Step.finish, unplanned)
      ∷ (pos 0, waiting)
      ∷ [];
}

abbrev pub waiting_run : Run
waiting_run = record { session = waiting_session; sent = []; ended = [] }

-- The run that a call comes back with.
abbrev pub run_of : Outcome (Bool × Run) → Run
run_of (ok b) = b.1
run_of (fault f) = fresh_run
