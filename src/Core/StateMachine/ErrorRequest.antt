-- ===== src/Core/StateMachine/ErrorRequest.antt =====
-- An error that arrives for a session, from the outside (`errorReceived` of core/state_machine.cpp).
use libworkflow.Prelude.{ℕ, suc, ◌≡◌, refl, ◌∙◌, true, false, none, some, List, [], ◌∷◌, ◌++◌}
use libworkflow.Prelude.Int.{eqb_ℤ}
use libworkflow.Prelude.Key.{int_key, string_key}
use libworkflow.Prelude.Map.{lookup}
use libworkflow.Prelude.IdSet
use libworkflow.Prelude.Outcome.{ok}
use libworkflow.Core.Step
use libworkflow.Core.Target
use libworkflow.Core.Request.{Request}
use libworkflow.Core.Session.{Session, push_request, get_last_request, last, set_input, get_output}
use libworkflow.Core.StateMachine.Layout.{StateMachine}
use libworkflow.Core.StateMachine.Schedule.{add_to_next, get_next, plan}
use libworkflow.Core.StateMachine.Execution.{Run, with_session, execute_next, execute_action}
use libworkflow.Core.StateMachine.Entry.{
  execute, is_fresh, switch_to, error_received, dispatch_request,
}
use libworkflow.Core.StateMachine.Switch.{marks, reset-marks}
use libworkflow.Core.StateMachine.ErrorFlow.{HasErrorFlow}
use libworkflow.Core.StateMachine.ErrorEnds.{error_answer, no_cleanup_skip, error_ends}
use libworkflow.Core.StateMachine.Arrivals.{started, execute-as}

last-append : (rs : List Request) (r : Request) → last (rs ++ r ∷ []) ≡ some r
last-append [] r = refl
last-append (q ∷ []) r = refl
last-append (q ∷ p ∷ rs) r = last-append (p ∷ rs) r

-- The session in which only `Error` is planned.
abbrev erring : StateMachine → Session → Session
erring m s = plan Step.error (record s { status = marks m.actions []; nexts = []; pendings = [] })

switch_to-error :
    (fuel : ℕ) (m : StateMachine) (r : Run)
    → HasErrorFlow m
    → switch_to fuel m Step.error r
      ≡ execute_action fuel m (with_session r (erring m r.session)) Step.error
unfolding switch_to add_to_next execute_next get_next eqb_ℤ plan IdSet.insert
switch_to-error fuel m r flow = rw (reset-marks m r.session) (rw flow.error_action)

-- An error request that names no action of the machine reaches a session that has started, in a
-- machine with the error flow and with no `SkipCtx` on the way from `Error` to `Cleanup`: one error
-- reply with the report of that request is sent, and the original request ends.
pub error_request-ends :
    (fuel : ℕ) (m : StateMachine) (request q : Request) (r : Run)
    → HasErrorFlow m
    → is_fresh r.session ≡ false
    → r.session.request ≡ some q
    → request.target.target ≡ Target.error
    → lookup request.target.action m.actions ≡ none
    → no_cleanup_skip r.session ≡ true
    → (s : Session) × (execute (suc (suc (suc fuel))) m request r
        ≡ ok (
          true,
          record {
            session = s;
            sent = r.sent ++ error_answer q request ∷ [];
            ended = r.ended ++ q ∷ [];
          },
        ))
unfolding dispatch_request plan push_request get_output set_input
error_request-ends fuel m request q r flow h e t n k =
    let (s, ends) =
      error_ends m flow fuel (with_session r (erring m (push_request request r.session))) q request
        (rw e) (unfold get_last_request in rw e (last-append r.session.requests request))
        (rw e k) in
    (
      s,
      execute-as Target.error (suc (suc (suc fuel))) m request r h t
          ∙ rw (n, error_received)
              (switch_to-error (suc (suc (suc fuel))) m (started request r) flow)
          ∙ ends,
    )
