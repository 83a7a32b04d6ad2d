-- ===== src/Core/StateMachine/Execution.antt =====
-- The calls that run actions. `executeAction` and `actionExecuted` call each other until an action
-- waits or the machine reaches `Die`: they run on fuel, and `out_of_fuel` is the answer for a
-- workflow that is still running then.
use libworkflow.Prelude.{
  ℕ, zero, suc, String, Bool, true, false, ◌||◌, Option, none, some, List, [], ◌∷◌, ◌++◌,
  if◌then◌else◌,
}
use libworkflow.Prelude.Int.{ℤ, eqb_ℤ}
use libworkflow.Prelude.Key.{int_key}
use libworkflow.Prelude.Map.{Map, lookup}
use libworkflow.Prelude.Outcome.{Outcome, ok, fault, out_of_fuel, deref, ◌>>=◌}
use libworkflow.Core.Step
use libworkflow.Core.Request.{Request}
use libworkflow.Core.Session.{
  Session, ExecutionStatus, unplanned, planned, waiting, set_status, get_status, set_input,
  push_request, get_last_request, report_last,
}
use libworkflow.Core.Session
use libworkflow.Core.Action.Results.{Result, ResultType, done, wait, finish, async, Performed}
use libworkflow.Core.Action.Results
use libworkflow.Core.Action.Wrapper.{Action, perform}
use libworkflow.Core.StateMachine.Layout.{StateMachine, get_expected_output}
use libworkflow.Core.StateMachine.Schedule.{
  remove_from_next, remove_from_pending, add_to_next, get_next, bind_results, can_execute_action,
  can_execute_finish,
}
use libworkflow.Tools.ErrorReport.{ErrorReport, new_report, empty_report}

-- What a call changes: the session, the requests given to the controller manager so far, and the
-- requests whose end was told to the controller.
pub record Run : Type 0 where
  pub session : Session
  pub sent : List Request
  pub ended : List Request

abbrev Exec : Type 0
Exec = Run → ℤ → Outcome (Bool × Run)

abbrev pub with_session : Run → Session → Run
with_session r s = record r { session = s }

-- Every action of the machine becomes unplanned.
unfoldable pub mark_unplanned : Map ℤ Action → Session → Session
unfolding set_status
mark_unplanned [] s = s
mark_unplanned ((id, a) ∷ rest) s = mark_unplanned rest (set_status id unplanned s)

-- The plan of the normal flow is dropped.
unfoldable pub reset : StateMachine → Session → Session
unfolding mark_unplanned
reset m s = mark_unplanned m.actions (record s { status = []; nexts = []; pendings = [] })

-- `executeAction(session, getNext(session))`
unfoldable pub execute_next : Exec → StateMachine → Run → Outcome (Bool × Run)
unfolding get_next
execute_next exec m r = get_next m r.session >>= λ n. exec (with_session r n.0) n.1

-- `getLastRequest()->setErrorReport(report)`
unfoldable pub report_error : Option ErrorReport → Session → Outcome Session
unfolding get_last_request
report_error er s =
    deref (get_last_request s) >>= λ latest. ok (record s { requests = report_last er s.requests })

-- The report that the state machine itself makes about the original request.
unfoldable pub report_about : Session → (key message : String) → Outcome ErrorReport
unfolding new_report
report_about s key message =
    deref s.request >>= λ original. ok (new_report original.target key message)

-- `executeAction` with no action to execute.
unfoldable pub execute_nothing : Exec → StateMachine → Run → Outcome (Bool × Run)
unfolding execute_next report_error report_about can_execute_finish
execute_nothing exec m r = get_next m r.session >>= λ n.
    let s = n.0 in
    let able : Outcome Bool =
      if eqb_ℤ n.1 Step.nothing
      then ok false
      else (deref (lookup n.1 m.actions) >>= λ act. can_execute_action m s act) in
    able >>= λ runs.
    if runs
    then exec (with_session r s) n.1
    else can_execute_finish m s >>= λ finishes.
        if finishes
        then (add_to_next m Step.finish s >>= λ s'. execute_next exec m (with_session r s'))
        else (add_to_next m Step.error s >>= λ s'.
            report_about s' "statemachine.unexpected.noend"
              "No end of workflow available ... aborting"
            >>= λ er. report_error (some er) s' >>= λ s''. execute_next exec m (with_session r s''))

-- `actionExecuted`, by the type of the result.
unfoldable pub outputs_hold : Action → Session → Outcome Bool
outputs_hold act s = act.methods.check_outputs act.fields s empty_report >>= λ checked. ok checked.0

unfoldable pub executed_done : Exec → StateMachine → Run → ℤ → Outcome (Bool × Run)
unfolding execute_next report_error report_about bind_results outputs_hold
executed_done exec m r id = deref (lookup id m.actions) >>= λ act.
    outputs_hold act r.session >>= λ hold.
    if hold
    then (bind_results m id (set_status id Session.done r.session) >>= λ s.
        execute_next exec m (with_session r s))
    else (report_about r.session "action.contract.output"
          "Action failed it's outputs contract. Aborting"
        >>= λ er. report_error (some er) r.session >>= λ s. exec (with_session r s) Step.error)

unfoldable pub executed_error :
    Exec → StateMachine → Run → ℤ → Option ErrorReport → Outcome (Bool × Run)
unfolding get_last_request
executed_error exec m r id er = elim (get_last_request r.session) [
  | none ↦ deref (lookup id m.actions) >>= λ act.
      exec (with_session r (set_status id Session.done r.session)) Step.error
  | some latest ↦
      exec
        (with_session r (
          set_status id Session.done
            (record r.session { requests = report_last er r.session.requests })))
        Step.error
]

unfoldable pub dispatch_result :
    ResultType → Exec → StateMachine → Run → Result → Outcome (Bool × Run)
unfolding executed_done executed_error bind_results
dispatch_result done exec m r result = executed_done exec m r result.action_id
dispatch_result async exec m r result =
    ok (true, with_session r (set_status result.action_id Session.async r.session))
dispatch_result wait exec m r result =
    ok (true, with_session r (set_status result.action_id waiting r.session))
dispatch_result finish exec m r result =
    bind_results m result.action_id (set_status result.action_id Session.done r.session) >>= λ s.
    exec (with_session r s) Step.finish
dispatch_result Results.error exec m r result =
    executed_error exec m r result.action_id result.error_report

unfoldable pub action_executed : Exec → StateMachine → Run → Result → Outcome Run
unfolding dispatch_result
action_executed exec m r result = dispatch_result result.type exec m r result >>= λ b. ok b.1

abbrev pub is_switch : ℤ → Bool
is_switch id = eqb_ℤ id Step.interrupt || eqb_ℤ id Step.error || eqb_ℤ id Step.cleanup

-- The session just before an action runs: the action leaves the plan, and the switch to the
-- interrupt, error or cleanup flow drops the rest of it too.
unfoldable pub prepare_session : StateMachine → ℤ → Session → Session
unfolding remove_from_next remove_from_pending reset
prepare_session m id s =
    let s' = remove_from_pending id (remove_from_next id s) in
    if is_switch id then set_status id planned (reset m s') else s'

unfoldable pub run_action : Exec → StateMachine → Run → ℤ → Outcome (Bool × Run)
unfolding prepare_session perform action_executed get_expected_output
run_action exec m r id =
    let s = prepare_session m id r.session in
    elim (lookup id m.actions) [
      | none ↦ ok (false, with_session r s)
      | some act ↦ perform act (get_expected_output m) s >>= λ p.
          action_executed exec m (record r { session = p.session; sent = r.sent ++ p.sent })
            p.result
          >>= λ r'. ok (true, r')
    ]

unfoldable pub execute_action : ℕ → StateMachine → Run → ℤ → Outcome (Bool × Run)
unfolding execute_nothing run_action
execute_action zero m r id = fault out_of_fuel
execute_action (suc fuel) m r id =
    if eqb_ℤ id Step.die
    then (deref r.session.request >>= λ original.
        ok (true, record r { ended = r.ended ++ original ∷ [] }))
    else if eqb_ℤ id Step.nothing
    then execute_nothing (execute_action fuel m) m r
    else run_action (execute_action fuel m) m r id
