-- ===== src/Actions/Tests.antt =====
-- ExecuteWorkflow at concrete values.
use libworkflow.Prelude.{Bool, false, Option, none, some, ◌≡◌, refl}
use libworkflow.Prelude.Outcome.{ok}
use libworkflow.Core.Context.{Context, plain}
use libworkflow.Core.Target.{new_target}
use libworkflow.Core.Request.{new_request}
use libworkflow.Core.Session.{Session, new_session}
use libworkflow.Core.Action.Contract.{ActionData, set_state_machine}
use libworkflow.Core.Action.Properties.{bool_property}
use libworkflow.Core.Action.Results.{Performed}
use libworkflow.Tools.PropertySet.Typed.{PropertySet, empty_set}
use libworkflow.Actions.ExecuteWorkflow.{new_execute_workflow, perform_execute}
use libworkflow.Actions.Requests.{Performs, perform_execute-sends}

abbrev some_session : Session
some_session = record new_session {
  request =
      some (new_request (new_target "default" "outer" 7 1) (new_target "default" "caller" 8 1));
  bypass = some empty_set;
}

abbrev inner : ActionData
inner =
    set_state_machine (new_execute_workflow false "default" "inner" (plain "PropertySet")).fields

abbrev no_set : Option Context → Option PropertySet
no_set c = none

perform_execute-sends_example :
    (s' : Session) × (sync : Bool) × (p : Performed) × (bool_property inner some_session "sync"
        false
      ≡ ok (s', sync))
    × (perform_execute no_set
          (new_target "default" "" 1 0)
          (new_target "default" "" 2 0)
          inner
          some_session
        ≡ ok p)
    × Performs no_set inner sync s' p
unfolding set_state_machine
perform_execute-sends_example =
    perform_execute-sends no_set inner (new_target "default" "" 1 0) (new_target "default" "" 2 0)
      some_session refl refl refl
