-- ===== src/Core/Action/Results.antt =====
-- What an action hands back, and the requests that it makes (core/result.h, core/action.cpp).
use libworkflow.Prelude.{String, Option, none, some, List, [], ◌∷◌}
use libworkflow.Prelude.Int.{ℤ}
use libworkflow.Prelude.Outcome.{Outcome, ok, deref, ◌>>=◌}
use libworkflow.Core.Target.{reply}
use libworkflow.Core.Request.{Request}
use libworkflow.Core.Session.{Session}
use libworkflow.Core.Action.Contract.{ActionData}
use libworkflow.Tools.ErrorReport.{ErrorReport, new_report, set_request}

pub data ResultType : Type 0 where
  done wait error finish async : ResultType

pub record Result : Type 0 where
  pub action_id : ℤ
  pub type : ResultType
  pub error_report : Option ErrorReport

unfoldable pub result_done : ActionData → Result
result_done a = record { action_id = a.action_id; type = done; error_report = none }

unfoldable pub result_wait : ActionData → Result
result_wait a = record { action_id = a.action_id; type = wait; error_report = none }

unfoldable pub result_async : ActionData → Result
result_async a = record { action_id = a.action_id; type = async; error_report = none }

-- `error(session, key, message)`: a new report about the original request.
unfoldable pub result_error : ActionData → Session → (key message : String) → Outcome Result
unfolding new_report set_request
result_error a session key message = deref session.request >>= λ original. ok (record {
  action_id = a.action_id;
  type = error;
  error_report = some (set_request (new_report original.target key message) original.request_id);
})

-- `error(session, report)`
unfoldable pub result_error_report : ActionData → Session → Option ErrorReport → Outcome Result
unfolding set_request
result_error_report a session er = deref er >>= λ report. deref session.request >>= λ original.
    ok (record {
      action_id = a.action_id;
      type = error;
      error_report = some (set_request report original.request_id);
    })

-- `prepareSyncRequest`: the reply is to come back to this action, at the current level.
unfoldable pub prepare_sync_request : ActionData → Session → Request → Outcome Request
prepare_sync_request a session req = deref session.request >>= λ original. ok (record req {
  reply = record original.target {
    execution_level = session.current_execution_level;
    action = a.action_id;
    target = reply;
  };
  request_id = original.request_id;
})

-- What running an action leaves: the session, the requests given to the controller manager, and
-- the result.
pub record Performed : Type 0 where
  pub session : Session
  pub sent : List Request
  pub result : Result

-- `executeSyncRequest`
unfoldable pub execute_sync_request : ActionData → Session → Request → Outcome Performed
unfolding prepare_sync_request result_wait
execute_sync_request a session req = prepare_sync_request a session req >>= λ r.
    ok (record { session = session; sent = r ∷ []; result = result_wait a })

-- `Action::perform` and `Action::replyReceived` where a class does not override them.
unfoldable pub default_perform : ActionData → Session → Outcome Performed
unfolding result_error
default_perform a session =
    result_error a session "action.perform.unimplemented"
      "Can't execute this action as Perform function wasn't implemented."
    >>= λ r. ok (record { session = session; sent = []; result = r })

unfoldable pub default_reply_received : ActionData → Session → Request → Outcome Performed
unfolding result_error
default_reply_received a session req =
    result_error a session "action.reply.unimplemented" "Didn't expect a reply to this action."
    >>= λ r. ok (record { session = session; sent = []; result = r })

-- `DefaultNextAction::perform`
unfoldable pub next_perform : ActionData → Session → Outcome Performed
unfolding result_done
next_perform a session = ok (record { session = session; sent = []; result = result_done a })
