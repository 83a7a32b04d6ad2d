-- ===== src/Core/StateMachine/Entry.antt =====
-- The entry points: a request arrives for a session, or an action reports from its own thread.
use libworkflow.Prelude.{
  ℕ, Bool, true, false, not, ◌&&◌, none, some, List, [], ◌∷◌, ◌++◌, if◌then◌else◌, is_empty, ◌==◌,
}
use libworkflow.Prelude.Int.{ℤ}
use libworkflow.Prelude.Key.{int_key}
use libworkflow.Prelude.Map.{lookup}
use libworkflow.Prelude.Outcome.{Outcome, ok, deref, ◌>>=◌}
use libworkflow.Core.Context.{GroupedCtx, get_context}
use libworkflow.Core.Target
use libworkflow.Core.Target.{TargetAction}
use libworkflow.Core.Bindings.{InputBinding}
use libworkflow.Core.Step
use libworkflow.Core.Request.{Request}
use libworkflow.Core.Session.{
  Session, ExecutionStatus, waiting, get_status, set_input, push_request,
}
use libworkflow.Core.Action.Results.{Result}
use libworkflow.Core.Action.Wrapper.{Action, perform, reply_received}
use libworkflow.Core.StateMachine.Layout.{StateMachine, get_expected_output}
use libworkflow.Core.StateMachine.Schedule.{
  add_to_next, add_to_pending, can_execute_action, can_pend_action,
}
use libworkflow.Core.StateMachine.Execution.{
  Run, with_session, mark_unplanned, reset, execute_next, action_executed, execute_action,
}

-- `firstCall`: the contexts of the request go to the inputs of the starting actions. An empty name
-- on either side only orders the execution.
unfoldable pub bind_starters : GroupedCtx → List InputBinding → Session → Session
unfolding get_context set_input
bind_starters g [] s = s
bind_starters g (b ∷ bs) s = bind_starters g bs (
    if not (is_empty b.workflow_input) && not (is_empty b.action_input)
    then set_input b.action_id b.action_input (get_context g b.workflow_input) s
    else s)

-- The plan of one starting action.
unfoldable pub plan_starter : StateMachine → Action → ℤ → Session → Outcome Session
unfolding can_execute_action can_pend_action add_to_next add_to_pending
plan_starter m act id s = can_execute_action m s act >>= λ able.
    if able
    then add_to_next m id s
    else can_pend_action s act >>= λ pends. if pends then add_to_pending m id s else ok s

-- The loop over the starting actions: false where one of them does not exist.
unfoldable pub plan_starters : StateMachine → List InputBinding → Session → Outcome (Session × Bool)
unfolding plan_starter
plan_starters m [] s = ok (s, true)
plan_starters m (b ∷ bs) s = elim (lookup b.action_id m.actions) [
  | none ↦ ok (s, false)
  | some act ↦ plan_starter m act b.action_id s >>= λ s'. plan_starters m bs s'
]

unfoldable pub first_call : ℕ → StateMachine → Run → Outcome (Bool × Run)
unfolding mark_unplanned bind_starters plan_starters execute_next
first_call fuel m r = deref r.session.request >>= λ original.
    plan_starters m m.starters
      (bind_starters original.context m.starters (mark_unplanned m.actions r.session))
    >>= λ p.
        if p.1
        then execute_next (execute_action fuel m) m (with_session r p.0)
        else ok (false, with_session r p.0)

-- The switch to the interrupt or the error flow.
unfoldable pub switch_to : ℕ → StateMachine → ℤ → Run → Outcome (Bool × Run)
unfolding reset execute_next
switch_to fuel m step r = add_to_next m step (reset m r.session) >>= λ s.
    execute_next (execute_action fuel m) m (with_session r s)

unfoldable pub interrupt_received : ℕ → StateMachine → Run → Outcome (Bool × Run)
unfolding switch_to
interrupt_received fuel m r = switch_to fuel m Step.interrupt r

abbrev pub is_waiting : ExecutionStatus → Bool
is_waiting waiting = true
is_waiting _ = false

-- The action that a reply is for takes it.
unfoldable pub deliver : ℕ → StateMachine → Action → Request → Run → Outcome (Bool × Run)
unfolding action_executed reply_received
deliver fuel m act request r = reply_received act r.session request >>= λ p.
    action_executed (execute_action fuel m) m
      (record r { session = p.session; sent = r.sent ++ p.sent }) p.result
    >>= λ r'. ok (true, r')

-- An error goes to a waiting action that can handle errors, else to the error flow.
unfoldable pub error_received : ℕ → StateMachine → Request → Run → Outcome (Bool × Run)
unfolding switch_to deliver
error_received fuel m request r = elim (lookup request.target.action m.actions) [
  | none ↦ switch_to fuel m Step.error r
  | some act ↦ get_status request.target.action r.session >>= λ e.
      if is_waiting e && act.methods.can_handle_error act.fields r.session
      then deliver fuel m act request r
      else switch_to fuel m Step.error r
]

-- The result of a status action is dropped.
unfoldable pub status_received : StateMachine → Run → Outcome (Bool × Run)
unfolding perform get_expected_output
status_received m r = elim (lookup Step.status m.actions) [
  | none ↦ ok (true, r)
  | some act ↦ perform act (get_expected_output m) r.session >>= λ p.
      ok (true, record r { session = p.session; sent = r.sent ++ p.sent })
]

unfoldable pub reply_to_action : ℕ → StateMachine → Request → Run → Outcome (Bool × Run)
unfolding deliver
reply_to_action fuel m request r = elim (lookup request.target.action m.actions) [
  | none ↦ ok (false, r)
  | some act ↦ get_status request.target.action r.session >>= λ e.
      if is_waiting e then deliver fuel m act request r else ok (false, r)
]

-- `execute` once the session has a status: by the kind of the request.
unfoldable pub dispatch_request :
    TargetAction → ℕ → StateMachine → Request → Run → Outcome (Bool × Run)
unfolding error_received interrupt_received status_received reply_to_action
dispatch_request Target.error fuel m request r = error_received fuel m request r
dispatch_request Target.interrupt fuel m request r = interrupt_received fuel m r
dispatch_request Target.status fuel m request r = status_received m r
dispatch_request Target.reply fuel m request r =
    if request.target.execution_level == 0
    then reply_to_action fuel m request r
    else if request.target.execution_level == r.session.current_execution_level
    then reply_to_action fuel m request r
    else ok (false, r)
dispatch_request Target.default_action fuel m request r = ok (false, r)
dispatch_request Target.no_reply fuel m request r = ok (false, r)

abbrev pub is_fresh : Session → Bool
is_fresh s = elim s.status [ [] ↦ true | e ∷ rest ↦ false ]

unfoldable pub execute : ℕ → StateMachine → Request → Run → Outcome (Bool × Run)
unfolding first_call dispatch_request push_request
execute fuel m request r =
    let r' = with_session r (push_request request r.session) in
    if is_fresh r'.session
    then first_call fuel m r'
    else dispatch_request request.target.target fuel m request r'

-- `actionAsyncFinished`
unfoldable pub action_async_finished : ℕ → StateMachine → Result → Run → Outcome Run
unfolding action_executed
action_async_finished fuel m result r = action_executed (execute_action fuel m) m r result
