-- ===== src/Core/Workflow.antt =====
-- core/workflow.h and core/workflow.cpp: which requests a workflow takes, and the session of each.
-- The mutex makes the calls sequential, one state to the next. `active` has no initial value in the
-- code: the value that a new session finds is an argument. A null request, which is refused, and the
-- timer are left out.
use libworkflow.Prelude.{
  ℕ, String, Bool, true, false, not, ◌&&◌, ◌||◌, Option, none, some, List, [], ◌∷◌, ◌++◌,
  if◌then◌else◌,
}
use libworkflow.Prelude.Key.{nat_key}
use libworkflow.Prelude.Map.{Map, lookup, insert, erase, has}
use libworkflow.Prelude.Outcome.{Outcome, ok, at, deref, ◌>>=◌}
use libworkflow.Core.Target
use libworkflow.Core.Target.{TargetAction}
use libworkflow.Core.Request.{
  Request, get_id, create_reply, set_error_report, request_without_reply,
}
use libworkflow.Core.Session.{Session, new_session, push_request, has_finished}
use libworkflow.Core.StateMachine.Layout.{StateMachine, init, empty_machine}
use libworkflow.Core.StateMachine.Execution.{Run}
use libworkflow.Core.StateMachine.Entry.{execute}
use libworkflow.Tools.ErrorReport.{new_report}
pub mod Admission

pub record RunningSession : Type 0 where
  pub session : Session
  pub original : Option Request
  pub pending_requests : List Request
  pub active : Bool

pub record Workflow : Type 0 where
  pub name : String
  pub machine : StateMachine
  pub sessions : Map ℕ RunningSession

unfoldable pub new_workflow : String → Workflow
unfolding init empty_machine
new_workflow name = record { name = name; machine = init empty_machine; sessions = [] }

-- A workflow, and what it gave to the controller manager and to the controller so far.
pub record Served : Type 0 where
  pub workflow : Workflow
  pub sent : List Request
  pub ended : List Request

abbrev pub is_default : TargetAction → Bool
is_default Target.default_action = true
is_default _ = false

abbrev pub is_status : TargetAction → Bool
is_status Target.status = true
is_status _ = false

abbrev pub is_follow_up : TargetAction → Bool
is_follow_up Target.interrupt = true
is_follow_up Target.error = true
is_follow_up Target.reply = true
is_follow_up Target.status = true
is_follow_up _ = false

unfoldable pub can_execute_request : Workflow → Request → Bool
unfolding get_id
can_execute_request w request =
    let known = has (get_id request) w.sessions in
    let kind = request.target.target in
    if not known && is_default kind
    then true
    else if known && is_follow_up kind
    then true
    else if not known && is_status kind
    then true
    else false

-- `sessions[request->getId()]` where the request has no session yet.
unfoldable pub open_session : (garbage : Bool) → Request → Workflow → Workflow
unfolding get_id new_session push_request
open_session garbage request w = if has (get_id request) w.sessions then w else record w {
  sessions =
      insert (get_id request)
        (record {
          session = push_request request new_session;
          original = some request;
          pending_requests = [];
          active = garbage;
        })
        w.sessions;
}

unfoldable pub should_make_pending : RunningSession → Bool
should_make_pending rs = rs.active

unfoldable pub add_to_pending : ℕ → Request → RunningSession → Workflow → Workflow
add_to_pending id request rs w = record w {
  sessions =
      insert id (record rs { pending_requests = rs.pending_requests ++ request ∷ [] }) w.sessions;
}

-- What `perform` does once the state machine answers: a session that has finished is erased.
unfoldable pub close_session : Request → RunningSession → Workflow → Bool × Run → Bool × Served
unfolding get_id has_finished
close_session request rs w (b, r) =
    let kept =
      insert (get_id request) (record rs { session = r.session; active = false }) w.sessions in
    (
      b,
      record {
        workflow = record w {
          sessions = if has_finished r.session then erase (get_id request) kept else kept;
        };
        sent = r.sent;
        ended = r.ended;
      },
    )

unfoldable pub run_session : ℕ → Request → RunningSession → Served → Outcome (Bool × Served)
run_session fuel request rs v =
    execute fuel v.workflow.machine request
      (record { session = rs.session; sent = v.sent; ended = v.ended })
    >>= λ b. ok (close_session request rs v.workflow b)

unfoldable pub error_reply : Request → (key message : String) → Request
unfolding create_reply set_error_report new_report
error_reply request key message =
    set_error_report (create_reply request) (some (new_report request.target key message))

-- `perform` for a request that the workflow takes.
unfoldable pub admit : ℕ → Request → Served → Outcome (Bool × Served)
admit fuel request v = at (lookup (get_id request) v.workflow.sessions) >>= λ rs.
    if should_make_pending rs
    then ok (true, record v { workflow = add_to_pending (get_id request) request rs v.workflow })
    else run_session fuel request rs v

unfoldable pub perform : ℕ → (garbage : Bool) → Request → Served → Outcome (Bool × Served)
perform fuel garbage request v =
    if can_execute_request v.workflow request
    then admit fuel request (record v { workflow = open_session garbage request v.workflow })
    else ok (
      false,
      record v {
        sent = v.sent ++ error_reply request "unable.to.execute" "Can't execute request" ∷ [];
      },
    )

-- `requestTimedOut`: an interrupt request for the session, if it is still there.
unfoldable pub request_timed_out :
    ℕ → (garbage : Bool) → (fresh : Target.Target) → (id : ℕ) → Served → Outcome Served
request_timed_out fuel garbage fresh id v = elim (lookup id v.workflow.sessions) [
  | none ↦ ok v
  | some rs ↦ deref rs.session.request >>= λ original.
      perform fuel garbage
        (request_without_reply (record original.target { target = Target.interrupt }) fresh) v
      >>= λ b. ok b.1
]
