-- ===== src/Core/Tests.antt =====
-- Workflows and actions at concrete requests and sessions.
use libworkflow.Prelude.{true, false, ◌≡◌, refl, inl, [], ◌∷◌, ◌++◌, some, String}
use libworkflow.Prelude.Int.{pos, eqb_ℤ}
use libworkflow.Prelude.Key.{int_key, string_key, nat_key}
use libworkflow.Prelude.Map.{lookup}
use libworkflow.Prelude.Outcome.{ok, ◌>>=◌}
use libworkflow.Core.Context.{Context}
use libworkflow.Core.Target
use libworkflow.Core.Target.{new_target}
use libworkflow.Core.Request.{Request, new_request, get_id}
use libworkflow.Core.Session.{Session, new_session, push_request, get_input, get_output}
use libworkflow.Core.Action.Contract.{
  ActionData, PutDefinition, new_action, new_put_definition, check_inputs, check_outputs,
}
use libworkflow.Core.Action.Checks.{Good, check_inputs-Good, check_outputs-stops}
use libworkflow.Core.StateMachine.Entry.{first_call}
use libworkflow.Core.StateMachine.Scenarios.{split, asked, waiting_session}
use libworkflow.Core.Workflow.{Workflow, RunningSession, Served, perform, close_session}
use libworkflow.Core.Workflow.Admission.{perform-busy, perform-first, opened, with_opened}
use libworkflow.Tools.ErrorReport.{empty_report}

abbrev empty_served : Served
empty_served = record {
  workflow = record { name = "split"; machine = split; sessions = [] };
  sent = [];
  ended = [];
}

abbrev idle : RunningSession
idle = record {
  session = waiting_session;
  original = some asked;
  pending_requests = [];
  active = false;
}

abbrev serving : RunningSession → Served
serving rs = record empty_served {
  workflow = record empty_served.workflow { sessions = (7, rs) ∷ [] };
}

abbrev reply_to_it : Request
reply_to_it =
    new_request (record (new_target "default" "split" 7 0) { target = Target.reply })
      (new_target "default" "caller" 8 0)

perform-busy_example :
    (w : Workflow) × (perform 20 false reply_to_it (serving (record idle { active = true }))
      ≡ ok (true, record (serving (record idle { active = true })) { workflow = w }))
    × (lookup (get_id reply_to_it) w.sessions
        ≡ some (record idle { active = true; pending_requests = reply_to_it ∷ [] }))
unfolding lookup new_request new_target get_id
perform-busy_example =
    perform-busy 20 false reply_to_it (serving (record idle { active = true }))
      (record idle { active = true }) refl refl refl

perform-first_example : perform 20 false asked empty_served ≡ (
    first_call 20 split (record {
      session = push_request asked (push_request asked new_session);
      sent = [];
      ended = [];
    })
    >>= λ b. ok (close_session asked (opened asked) (with_opened asked empty_served.workflow) b))
unfolding lookup new_request new_target get_id
perform-first_example = perform-first 20 asked empty_served refl refl

-- An input and two outputs that take any context.
abbrev anything : String → PutDefinition
anything name =
    new_put_definition name (record { generate = Context.skip_ctx; check = λ c. true }) true

abbrev user : ActionData
user = record (new_action "User") { inputs = ("in", anything "in") ∷ [] }

abbrev fed_session : Session
fed_session = record new_session {
  inputs = (pos 0, ("in", some Context.skip_ctx) ∷ []) ∷ [];
  outputs = (pos 0, ("one", some Context.skip_ctx) ∷ []) ∷ [];
}

check_inputs-Good_example : Good (anything "in") (get_input (pos 0) "in" fed_session)
unfolding new_action new_put_definition new_session check_inputs get_input lookup eqb_ℤ
check_inputs-Good_example =
    check_inputs-Good user fed_session empty_report (anything "in") (inl refl) refl refl

check_outputs-stops_example :
    check_outputs
      (record user { outputs = [] ++ ("one", anything "one") ∷ ("two", anything "two") ∷ [] })
      fed_session
      empty_report
    ≡ ok (true, empty_report)
unfolding new_action new_put_definition new_session get_output lookup eqb_ℤ
check_outputs-stops_example =
    check_outputs-stops user [] (("two", anything "two") ∷ []) "one" (anything "one") fed_session
      empty_report tt (Context.skip_ctx, refl, refl)
