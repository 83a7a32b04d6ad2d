-- ===== src/Core/StateMachine/Tests.antt =====
-- Runs of small workflows.
use libworkflow.Prelude.{
  ◌+◌, ◌≤◌, true, false, ◌≡◌, ◌≢◌, ◌⊎◌, ◌||◌, refl, [], ◌∷◌, arith, ◌==◌, length, String, Option,
  some,
}
use libworkflow.Prelude.Int.{pos, eqb_ℤ, ltb_ℤ}
use libworkflow.Prelude.Key.{int_key, string_key}
use libworkflow.Prelude.Map.{lookup, insert}
use libworkflow.Prelude.IdSet.{mem}
use libworkflow.Prelude.Outcome.{Outcome, ok, fault, out_of_fuel, null_pointer}
use libworkflow.Core.Context.{is_skip}
use libworkflow.Core.Target
use libworkflow.Core.Target.{new_target}
use libworkflow.Core.Step
use libworkflow.Core.Request.{Request, new_request, create_reply}
use libworkflow.Core.Session.{
  up_current_execution_level, Session, new_session, push_request, get_status, get_last_request,
  get_input, get_output, set_input, planned, pending, done,
}
use libworkflow.Core.Action.Results.{prepare_sync_request, Result}
use libworkflow.Tools.ErrorReport.{ErrorReport}
use libworkflow.Core.Action.Wrapper.{unwrapped, Action, plain_action}
use libworkflow.Core.Action.Contract.{ActionData, set_state_machine, new_action}
use libworkflow.Core.StateMachine.Layout.{
  link, empty_machine, init, add_action, add_input, next_action, wrapper_for, list_at, wrapped,
}
use libworkflow.Core.StateMachine.Schedule.{get_next, place, bind_results}
use libworkflow.Core.StateMachine.Execution.{Run, execute_action, action_executed}
use libworkflow.Core.StateMachine.Entry.{execute, deliver}
use libworkflow.Core.StateMachine.Rounds.{get_next_ends}
use libworkflow.Core.StateMachine.Order.{get_next-last_alone, get_next-scheduled}
use libworkflow.Core.StateMachine.Placement.{Fate, place-Fate}
use libworkflow.Core.StateMachine.Consistency.{IsConsistent, bind_results-IsConsistent}
use libworkflow.Core.StateMachine.Endings.{execute_action-ends_once}
use libworkflow.Core.StateMachine.ErrorFlow.{HasErrorFlow}
use libworkflow.Core.StateMachine.ErrorEnds.{error_ends, error_answer}
use libworkflow.Core.StateMachine.ErrorRequest.{error_request-ends}
use libworkflow.Core.StateMachine.Built.{in_error_flow, is_interrupt, with_action}
use libworkflow.Core.StateMachine.Specials.{BuiltKeeping-HasErrorFlow}
use libworkflow.Core.StateMachine.Feeds.{feeds, inputs_map-feeds}
use libworkflow.Core.StateMachine.Async.{
  async_done, async_wait, async_error, async_error_report, async-wrapped_faults,
}
use libworkflow.Core.StateMachine.Levels.{late_reply-ignored}
use libworkflow.Core.StateMachine.Arrivals.{
  Taken, started, reply_request-Taken, sync_request-answered, interrupt_request-faults,
}
use libworkflow.Core.StateMachine.Scenarios.{
  split, split_Built, asked, fresh_run, ends, asking, waiting_session, waiting_run, run_of, patient,
}

split_runs : ends (execute 20 split asked fresh_run) ≡ ok (create_reply asked ∷ [], asked ∷ [])
unfolding execute execute_action init add_action add_input empty_machine next_action new_session
    new_request new_target lookup insert eqb_ℤ ltb_ℤ push_request get_status get_last_request
    get_input get_output
split_runs = refl

-- The error request that ends the waiting session.
abbrev failure : Request
failure =
    new_request (record (new_target "default" "split" 7 0) { target = Target.error })
      (new_target "default" "caller" 8 0)

error_request-ends_example :
    (s : Session) × (execute 3 split failure waiting_run
      ≡ ok (
        true,
        record { session = s; sent = error_answer asked failure ∷ []; ended = asked ∷ [] },
      ))
unfolding new_session new_request new_target init add_action add_input empty_machine wrapper_for
    lookup insert eqb_ℤ ltb_ℤ next_action set_input get_output
error_request-ends_example =
    error_request-ends 0 split failure asked waiting_run
      (BuiltKeeping-HasErrorFlow (split_Built in_error_flow refl refl refl)) refl refl refl refl
      refl

error_ends_example :
    (s : Session) × (execute_action 3 split waiting_run Step.error
      ≡ ok (true, record { session = s; sent = error_answer asked asked ∷ []; ended = asked ∷ [] }))
unfolding new_session new_request new_target lookup insert eqb_ℤ set_input get_output
    get_last_request is_skip
error_ends_example =
    error_ends split (BuiltKeeping-HasErrorFlow (split_Built in_error_flow refl refl refl)) 0
      waiting_run asked asked refl refl refl

-- 1 is planned and `Finish` is pending.
abbrev ending : Session
ending = record new_session {
  nexts = Step.finish ∷ [];
  pendings = pos 1 ∷ [];
  status = (Step.finish, planned) ∷ (pos 1, pending) ∷ [];
}

abbrev promoted_one : Session
promoted_one = record new_session {
  nexts = Step.finish ∷ pos 1 ∷ [];
  pendings = [];
  status = (Step.finish, planned) ∷ (pos 1, planned) ∷ [];
}

abbrev finishing : Session
finishing = record new_session {
  nexts = Step.finish ∷ [];
  pendings = [];
  status = (Step.finish, planned) ∷ [];
}

get_next-last_alone_example : (finishing.nexts ≡ Step.finish ∷ []) × (finishing.pendings ≡ [])
unfolding get_next new_session eqb_ℤ mem
get_next-last_alone_example =
    get_next-last_alone split finishing (record { one_end = omega arith; real = refl }) refl refl

get_next-scheduled_example :
    (((pos 1 ≡ Step.nothing) × (promoted_one.nexts ≡ []) × (promoted_one.pendings ≡ []))
      ⊎ (mem (pos 1) promoted_one.nexts ≡ true))
    × ((mem Step.finish promoted_one.nexts || mem Step.finish promoted_one.pendings)
        ≡ (mem Step.finish ending.nexts || mem Step.finish ending.pendings))
unfolding get_next new_session eqb_ℤ ltb_ℤ mem init add_action add_input empty_machine wrapper_for
    lookup insert next_action
get_next-scheduled_example = get_next-scheduled split ending Step.finish refl refl

get_next_ends_example : get_next split ending ≢ fault out_of_fuel
get_next_ends_example = get_next_ends split ending

-- 0 is done: 1 becomes planned.
abbrev zero_done : Session
zero_done = record new_session { status = (pos 0, done) ∷ [] }

abbrev one_planned : Session
one_planned = record new_session {
  nexts = pos 1 ∷ [];
  status = (pos 0, done) ∷ (pos 1, planned) ∷ [];
}

place-Fate_example :
    Fate split (wrapped unwrapped (pos 1) next_action) (pos 1) zero_done one_planned
unfolding place new_session eqb_ℤ ltb_ℤ init add_action add_input empty_machine wrapper_for lookup
    insert next_action get_status
place-Fate_example = place-Fate split (wrapped unwrapped (pos 1) next_action) (pos 1) zero_done refl

abbrev session_of : Outcome Session → Session
session_of (ok s) = s
session_of (fault f) = zero_done

bind_results-IsConsistent_example : IsConsistent (session_of (bind_results split (pos 0) zero_done))
unfolding bind_results new_session eqb_ℤ ltb_ℤ init add_action add_input empty_machine wrapper_for
    lookup insert next_action mem get_output set_input get_status
bind_results-IsConsistent_example =
    bind_results-IsConsistent split (pos 0) zero_done
      (record { no_action = refl; not_pending = refl })
      (record { next_planned = λ id h. absurd (cc (h)); waits_pending = λ id h. absurd (cc (h)) })
      refl

execute_action-ends_once_example :
    length (run_of (execute_action 20 split waiting_run Step.error)).ended
    ≤ length waiting_run.ended + 1
unfolding execute_action init add_action add_input empty_machine next_action new_session new_request
    new_target lookup insert eqb_ℤ ltb_ℤ push_request get_status get_last_request get_input
    get_output set_input
execute_action-ends_once_example = execute_action-ends_once 20 split waiting_run Step.error refl

inputs_map-feeds_example :
    mem (pos 1) (list_at Step.finish split.inputs_map) ≡ feeds (pos 1) Step.finish split.outputs
inputs_map-feeds_example =
    inputs_map-feeds (pos 1) Step.finish split (split_Built (λ id. false) refl refl refl)

-- With an interrupt flow, and a `Finish` of its own.
BuiltKeeping-HasErrorFlow_example : HasErrorFlow (
    add_action Step.interrupt next_action
      (link Step.interrupt Step.cleanup ∷ [])
      (add_action Step.finish patient (link Step.finish Step.cleanup ∷ []) split))
unfolding eqb_ℤ
BuiltKeeping-HasErrorFlow_example = BuiltKeeping-HasErrorFlow (
    with_action Step.interrupt _ _ refl
      (with_action Step.finish _ _ refl (split_Built in_error_flow refl refl refl)))

-- The reply that the action 0 waits for.
abbrev answer : Request
answer =
    new_request
      (record (new_target "default" "split" 7 0) { target = Target.reply; action = pos 0 })
      (new_target "default" "caller" 8 0)

reply_request-Taken_example :
    (((answer.target.execution_level == 0)
        || (answer.target.execution_level == waiting_session.current_execution_level))
      ≡ true)
    × Taken 20 asking answer
        (started answer waiting_run)
        (run_of (execute 20 asking answer waiting_run))
unfolding execute execute_action init add_action add_input empty_machine next_action new_session
    new_request new_target lookup insert eqb_ℤ ltb_ℤ push_request get_status get_last_request
    get_input get_output set_input is_skip
reply_request-Taken_example = reply_request-Taken 20 asking answer waiting_run refl refl refl

abbrev question : Request
question = record asked {
  reply = record (new_target "default" "split" 7 0) {
    execution_level = 1;
    action = pos 0;
    target = Target.reply;
  };
}

sync_request-answered_example :
    execute 20 asking (create_reply question) waiting_run
    ≡ deliver 20 asking
        (wrapped unwrapped (pos 0) patient)
        (create_reply question)
        (started (create_reply question) waiting_run)
unfolding prepare_sync_request init add_action add_input empty_machine wrapper_for next_action
    new_session new_request new_target lookup insert eqb_ℤ ltb_ℤ
sync_request-answered_example =
    sync_request-answered 20 asking (wrapped unwrapped (pos 0) patient) asked question
      waiting_session waiting_run refl refl refl refl refl

abbrev about : Target.TargetAction → Request
about kind =
    new_request (record (new_target "default" "split" 7 0) { target = kind })
      (new_target "default" "caller" 8 0)

interrupt_request-faults_example :
    execute 20 split (about Target.interrupt) waiting_run ≡ fault null_pointer
unfolding new_session new_request new_target eqb_ℤ
interrupt_request-faults_example =
    interrupt_request-faults 20 split (about Target.interrupt) waiting_run
      (split_Built is_interrupt refl refl refl) refl refl

abbrev switched_run : Run
switched_run = record waiting_run {
  session = record waiting_session { current_execution_level = 3 };
}

late_reply-ignored_example :
    execute 20 asking (create_reply question) switched_run
    ≡ ok (false, started (create_reply question) switched_run)
unfolding prepare_sync_request init add_action add_input empty_machine wrapper_for next_action
    new_session new_request new_target lookup insert eqb_ℤ ltb_ℤ up_current_execution_level
late_reply-ignored_example =
    late_reply-ignored 2 20 asking patient.fields waiting_session asked switched_run (omega arith)
      (omega arith) (omega arith) (omega arith) refl refl refl

abbrev steps : Run → Result → Outcome Run
steps = action_executed (execute_action 20 asking) asking

-- The fields of the action 0 of `asking`.
abbrev patient_there : ActionData
patient_there = set_state_machine patient.fields

async-wrapped_faults_example :
    (added : Action) × (lookup Step.finish (add_action Step.finish patient [] asking).actions
      ≡ some added)
    × (async_done 20 (add_action Step.finish patient [] asking) added.fields waiting_run
        ≡ fault null_pointer)
    × (async_wait 20 (add_action Step.finish patient [] asking) added.fields waiting_run
        ≡ fault null_pointer)
    × ((key message : String)
        → async_error 20
            (add_action Step.finish patient [] asking)
            added.fields
            key
            message
            waiting_run
          ≡ fault null_pointer)
    × ((er : Option ErrorReport)
        → async_error_report 20
            (add_action Step.finish patient [] asking)
            added.fields
            er
            waiting_run
          ≡ fault null_pointer)
unfolding wrapper_for eqb_ℤ new_action plain_action
async-wrapped_faults_example =
    async-wrapped_faults 20 asking Step.finish patient [] waiting_run refl refl refl
