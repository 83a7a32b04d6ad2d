-- ===== src/Core/Workflow/Admission.antt =====
-- Which requests a workflow takes, and what it does with them.
use libworkflow.Prelude.{
  ℕ, ◌≡◌, refl, ap, ◌∙◌, Bool, true, false, ◌||◌, none, some, List, [], ◌∷◌, ◌++◌, arith,
}
use libworkflow.Prelude.Key.{nat_key}
use libworkflow.Prelude.Map.{lookup, insert, lookup-insert_self}
use libworkflow.Prelude.Outcome.{ok, fault, null_pointer, ◌>>=◌}
use libworkflow.Core.Target
use libworkflow.Core.Target.{TargetAction}
use libworkflow.Core.Request.{Request, get_id, request_without_reply}
use libworkflow.Core.Session.{new_session, push_request}
use libworkflow.Core.StateMachine.Layout.{StateMachine}
use libworkflow.Core.StateMachine.Entry.{execute, first_call, is_fresh}
use libworkflow.Core.StateMachine.Built.{BuiltKeeping, is_interrupt}
use libworkflow.Core.StateMachine.Arrivals.{interrupt_request-faults}
use libworkflow.Core.Workflow.{
  Workflow, RunningSession, Served, can_execute_request, open_session, run_session, close_session,
  admit, perform, request_timed_out, add_to_pending, should_make_pending, is_default, is_follow_up,
  is_status,
}

-- The session that a first request opens.
abbrev pub opened : Request → RunningSession
opened request = record {
  session = push_request request new_session;
  original = some request;
  pending_requests = [];
  active = false;
}

abbrev pub with_opened : Request → Workflow → Workflow
with_opened request w = record w { sessions = insert (get_id request) (opened request) w.sessions }

admitted_known :
    (w : Workflow) (request : Request) (rs : RunningSession)
    → lookup (get_id request) w.sessions ≡ some rs
    → is_follow_up request.target.target ≡ true
    → can_execute_request w request ≡ true
unfolding can_execute_request
admitted_known w request rs l f = rw l (rw f)

known_open :
    (garbage : Bool) (w : Workflow) (request : Request) (rs : RunningSession)
    → lookup (get_id request) w.sessions ≡ some rs
    → open_session garbage request w ≡ w
unfolding open_session
known_open garbage w request rs l = rw l

admitted_first :
    (w : Workflow) (request : Request)
    → lookup (get_id request) w.sessions ≡ none
    → (is_default request.target.target || is_status request.target.target) ≡ true
    → can_execute_request w request ≡ true
unfolding can_execute_request
admitted_first w request l k = rw l (ground (arith, k))

opened_first :
    (request : Request) (w : Workflow)
    → lookup (get_id request) w.sessions ≡ none
    → open_session false request w ≡ with_opened request w
unfolding open_session
opened_first request w l = rw l

-- An interrupt, error, reply or status request for a session that is busy is put behind the requests
-- that wait for it: nothing is run and nothing is sent.
pub perform-busy :
    (fuel : ℕ) (garbage : Bool) (request : Request) (v : Served) (rs : RunningSession)
    → lookup (get_id request) v.workflow.sessions ≡ some rs
    → rs.active ≡ true
    → is_follow_up request.target.target ≡ true
    → (w : Workflow) × (perform fuel garbage request v ≡ ok (true, record v { workflow = w }))
      × (lookup (get_id request) w.sessions
          ≡ some (record rs { pending_requests = rs.pending_requests ++ request ∷ [] }))
unfolding perform admit
perform-busy fuel garbage request v rs l a f = (
  add_to_pending (get_id request) request rs v.workflow,
  rw (admitted_known v.workflow request rs l f, known_open garbage v.workflow request rs l, l)
      (unfold should_make_pending in rw a),
  unfold add_to_pending in lookup-insert_self (get_id request) _ v.workflow.sessions,
)

perform-opens :
    (fuel : ℕ) (request : Request) (v : Served)
    → lookup (get_id request) v.workflow.sessions ≡ none
    → (is_default request.target.target || is_status request.target.target) ≡ true
    → perform fuel false request v
      ≡ run_session fuel request
          (opened request)
          (record v { workflow = with_opened request v.workflow })
unfolding perform admit should_make_pending
perform-opens fuel request v l k = rw (
  admitted_first v.workflow request l k,
  opened_first request v.workflow l,
  lookup-insert_self (get_id request) (opened request) v.workflow.sessions,
)

perform-idle :
    (fuel : ℕ) (garbage : Bool) (request : Request) (v : Served) (rs : RunningSession)
    → lookup (get_id request) v.workflow.sessions ≡ some rs
    → rs.active ≡ false
    → is_follow_up request.target.target ≡ true
    → perform fuel garbage request v ≡ run_session fuel request rs v
unfolding perform admit should_make_pending
perform-idle fuel garbage request v rs l a f =
    rw (admitted_known v.workflow request rs l f, known_open garbage v.workflow request rs l, l)
      (rw a)

starts :
    (fuel : ℕ) (m : StateMachine) (request : Request) (sent ended : List Request)
    → execute fuel m request
        (record { session = push_request request new_session; sent = sent; ended = ended })
      ≡ first_call fuel m (record {
        session = push_request request (push_request request new_session);
        sent = sent;
        ended = ended;
      })
unfolding execute push_request new_session
starts fuel m request sent ended = refl

-- The first request of a session runs the workflow from its start, whether it is a `DefaultAction`
-- or a `Status` request, and stands twice in the requests of the session, where the session happens
-- to be created inactive.
pub perform-first :
    (fuel : ℕ) (request : Request) (v : Served)
    → lookup (get_id request) v.workflow.sessions ≡ none
    → (is_default request.target.target || is_status request.target.target) ≡ true
    → perform fuel false request v ≡ (
        first_call fuel v.workflow.machine (record {
          session = push_request request (push_request request new_session);
          sent = v.sent;
          ended = v.ended;
        })
        >>= λ b. ok (close_session request (opened request) (with_opened request v.workflow) b))
unfolding run_session
perform-first fuel request v l k =
    perform-opens fuel request v l k
    ∙ ap
        (λ o.
          o >>= λ b. ok (close_session request (opened request) (with_opened request v.workflow) b))
        (starts fuel v.workflow.machine request v.sent v.ended)

-- A time out of an idle session that has started follows a null pointer, in a workflow whose machine
-- is built from `init` without an `Interrupt` action: the interrupt request it makes finds none.
pub request_timed_out-faults :
    (fuel : ℕ) (garbage : Bool) (fresh : Target.Target) (v : Served) (rs : RunningSession)
    (q : Request)
    → BuiltKeeping is_interrupt v.workflow.machine
    → lookup q.target.identifier v.workflow.sessions ≡ some rs
    → rs.session.request ≡ some q
    → rs.active ≡ false
    → is_fresh rs.session ≡ false
    → request_timed_out fuel garbage fresh q.target.identifier v ≡ fault null_pointer
unfolding request_timed_out run_session request_without_reply get_id
request_timed_out-faults fuel garbage fresh v rs q b l e a f =
    let again = request_without_reply (record q.target { target = Target.interrupt }) fresh in
    let idle = perform-idle fuel garbage again v rs l a refl in
    let faults =
      interrupt_request-faults fuel v.workflow.machine again
        (record { session = rs.session; sent = v.sent; ended = v.ended }) b f refl in
    rw (l, request_timed_out) (rw e (rw idle (rw (faults, run_session))))
