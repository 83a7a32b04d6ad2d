-- ===== src/Core/StateMachine/Endings.antt =====
-- How often a run tells the controller that the request has come to its end.
use libworkflow.Prelude.{
  ℕ, zero, suc, ◌+◌, ◌≤◌, ◌≡◌, ap, subst, inl, inr, Bool, true, false, Option, some, [], ◌∷◌, ◌++◌,
  arith, Option-cases, if◌then◌else◌, length, length-append,
}
use libworkflow.Prelude.Int.{ℤ, eqb_ℤ}
use libworkflow.Prelude.Key.{int_key}
use libworkflow.Prelude.Map.{lookup}
use libworkflow.Prelude.Outcome.{Outcome, ok, fault, deref, ◌>>=◌, >>=-eq-ok, ok_injective}
use libworkflow.Core.Step
use libworkflow.Core.Request.{Request}
use libworkflow.Core.Session
use libworkflow.Core.Session.{Session, set_status, get_last_request, report_last, waiting}
use libworkflow.Core.Action.Results.{Result, ResultType, done, wait, finish, async}
use libworkflow.Core.Action.Results
use libworkflow.Core.Action.Wrapper.{perform}
use libworkflow.Core.StateMachine.Layout.{StateMachine, get_expected_output}
use libworkflow.Core.StateMachine.Schedule.{get_next, bind_results, add_to_next, can_execute_finish}
use libworkflow.Core.StateMachine.Execution.{
  Run, with_session, execute_next, execute_nothing, executed_done, executed_error, dispatch_result,
  action_executed, prepare_session, run_action, execute_action, outputs_hold, report_about,
  report_error,
}
use libworkflow.Tools.ErrorReport.{ErrorReport}

-- From `r` to `r'` at most one more request has ended.
abbrev OneMore : Run → Run → Type 0
OneMore r r' = length r'.ended ≤ length r.ended + 1

abbrev Tells : (Run → ℤ → Outcome (Bool × Run)) → Type 0
Tells e = (r : Run) (id : ℤ) (x : Bool × Run) → e r id ≡ ok x → OneMore r x.1

if-rule :
    {B P : Type 0} (c : Bool) (x y : Outcome B) {b : B}
    → (x ≡ ok b → P)
    → (y ≡ ok b → P)
    → (if c then x else y) ≡ ok b
    → P
if-rule true x y h k e = h e
if-rule false x y h k e = k e

>>=-rule :
    {A B P : Type 0} (o : Outcome A) (f : A → Outcome B) {b : B}
    → ((a : A) → f a ≡ ok b → P)
    → (o >>= f) ≡ ok b
    → P
>>=-rule (ok a) f h e = h a e
>>=-rule (fault x) f h e = absurd (cc)

answered : {b : Bool} {r : Run} {x : Bool × Run} → Outcome.ok (b, r) ≡ ok x → r ≡ x.1
answered {x} e = ap (λ p. p.1) (ok_injective e)

-- An answer at once, with the requests ended as before.
unchanged :
    (r : Run) (s : Session) {b : Bool} {x : Bool × Run}
    → Outcome.ok (b, with_session r s) ≡ ok x
    → OneMore r x.1
unchanged r s e = subst (OneMore r) (answered e) (omega arith)

one_end :
    (r : Run) (q : Request) {b : Bool} {x : Bool × Run}
    → Outcome.ok (b, record r { ended = r.ended ++ q ∷ [] }) ≡ ok x
    → OneMore r x.1
one_end r q e = subst (OneMore r) (answered e) (omega (arith, length-append r.ended (q ∷ [])))

module _ (exec : Run → ℤ → Outcome (Bool × Run)) (tells : Tells exec) (m : StateMachine) where
  execute_next-tells : (r : Run) {x : Bool × Run} → execute_next exec m r ≡ ok x → OneMore r x.1
  unfolding execute_next
  execute_next-tells r e =
      >>=-rule (get_next m r.session) _ (λ n. tells (with_session r n.0) n.1 _) e

  executed_done-tells :
      (r : Run) (id : ℤ) {x : Bool × Run} → executed_done exec m r id ≡ ok x → OneMore r x.1
  unfolding executed_done
  executed_done-tells r id e =
      >>=-rule (deref (lookup id m.actions)) _
        (λ act. >>=-rule (outputs_hold act r.session) _ (λ hold.
          if-rule hold _ _
            (>>=-rule (bind_results m id (set_status id Session.done r.session)) _
              (λ s. execute_next-tells (with_session r s)))
            (>>=-rule
              (report_about r.session "action.contract.output"
                "Action failed it's outputs contract. Aborting")
              _
              (λ er.
                >>=-rule (report_error (some er) r.session) _
                  (λ s. tells (with_session r s) Step.error _)))))
        e

  executed_error-tells :
      (r : Run) (id : ℤ) (er : Option ErrorReport) {x : Bool × Run}
      → executed_error exec m r id er ≡ ok x
      → OneMore r x.1
  unfolding executed_error
  executed_error-tells r id er {x} e = elim (Option-cases (get_last_request r.session)) [
    | inl n ↦
        >>=-rule (deref (lookup id m.actions)) _
          (λ act. tells (with_session r (set_status id Session.done r.session)) Step.error _)
          (rw (n, executed_error) at e)
    | inr (q, n) ↦
        tells
          (with_session r (
            set_status id Session.done
              (record r.session { requests = report_last er r.session.requests })))
          Step.error _ (rw (n, executed_error) at e)
  ]

  dispatch-tells :
      (t : ResultType) (r : Run) (result : Result) {x : Bool × Run}
      → dispatch_result t exec m r result ≡ ok x
      → OneMore r x.1
  unfolding dispatch_result
  dispatch-tells done r result e = executed_done-tells r result.action_id e
  dispatch-tells wait r result e = unchanged r _ e
  dispatch-tells Results.error r result e =
      executed_error-tells r result.action_id result.error_report e
  dispatch-tells finish r result e =
      >>=-rule
        (bind_results m result.action_id (set_status result.action_id Session.done r.session)) _
        (λ s. tells (with_session r s) Step.finish _) e
  dispatch-tells async r result e = unchanged r _ e

  pub action_executed-tells :
      (r : Run) (result : Result) {x : Run} → action_executed exec m r result ≡ ok x → OneMore r x
  unfolding action_executed
  action_executed-tells r result e =
      let (b, one, two) = >>=-eq-ok (dispatch_result result.type exec m r result) _ e in
      subst (OneMore r) (ok_injective two) (dispatch-tells result.type r result one)

  run_action-tells :
      (r : Run) (id : ℤ) {x : Bool × Run} → run_action exec m r id ≡ ok x → OneMore r x.1
  unfolding run_action
  run_action-tells r id {x} e = elim (Option-cases (lookup id m.actions)) [
    | inl n ↦ unchanged r _ (rw (n, run_action) at e)
    | inr (act, n) ↦
        >>=-rule (perform act (get_expected_output m) (prepare_session m id r.session)) _
          (λ p h.
            let (y, one, two) =
              >>=-eq-ok
                (action_executed exec m (record r { session = p.session; sent = r.sent ++ p.sent })
                  p.result)
                _ h in
            subst (OneMore r) (answered two) (action_executed-tells _ p.result one))
          (rw (n, run_action) at e)
  ]

  execute_nothing-tells :
      (r : Run) {x : Bool × Run} → execute_nothing exec m r ≡ ok x → OneMore r x.1
  unfolding execute_nothing
  execute_nothing-tells r e =
      >>=-rule (get_next m r.session) _
        (λ n. >>=-rule _ _ (λ runs. if-rule runs _ _ (tells (with_session r n.0) n.1 _) (
          >>=-rule (can_execute_finish m n.0) _ (λ finishes.
            if-rule finishes _ _
              (>>=-rule (add_to_next m Step.finish n.0) _
                (λ s. execute_next-tells (with_session r s)))
              (>>=-rule (add_to_next m Step.error n.0) _ (λ s.
                >>=-rule
                  (report_about s "statemachine.unexpected.noend"
                    "No end of workflow available ... aborting")
                  _
                  (λ er.
                    >>=-rule (report_error (some er) s) _
                      (λ t. execute_next-tells (with_session r t)))))))))
        e

-- However long it goes on, and whatever its actions do, a run tells the controller at most once
-- that the request has ended.
pub execute_action-ends_once :
    (fuel : ℕ) (m : StateMachine) (r : Run) (id : ℤ) {x : Bool × Run}
    → execute_action fuel m r id ≡ ok x
    → length x.1.ended ≤ length r.ended + 1
unfolding execute_action
execute_action-ends_once zero m r id e = absurd (cc)
execute_action-ends_once (suc fuel) m r id e =
    if-rule (eqb_ℤ id Step.die) _ _ (>>=-rule (deref r.session.request) _ (λ q. one_end r q))
      (if-rule (eqb_ℤ id Step.nothing) _ _
        (execute_nothing-tells (execute_action fuel m)
          (λ s i x. execute_action-ends_once fuel m s i) m r)
        (run_action-tells (execute_action fuel m) (λ s i x. execute_action-ends_once fuel m s i) m r
          id))
      e
