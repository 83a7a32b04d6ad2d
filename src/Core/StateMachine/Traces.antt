-- ===== src/Core/StateMachine/Traces.antt =====
-- What a run of actions does: its answer does not depend on the fuel, and it tells the controller
-- about an end at most once.
use libworkflow.Prelude.{
  ℕ, zero, suc, ◌+◌, ◌≡◌, inl, inr, Bool, true, false, Option, some, ◌++◌, Option-cases,
  if◌then◌else◌,
}
use libworkflow.Prelude.Int.{ℤ, eqb_ℤ}
use libworkflow.Prelude.Key.{int_key}
use libworkflow.Prelude.Map.{lookup}
use libworkflow.Prelude.Outcome.{Outcome, ok, fault, deref, ◌>>=◌, >>=-eq-ok}
use native.Mathlib.Nat.{zero-add, suc-add}
use libworkflow.Tools.ErrorReport.{ErrorReport}
use libworkflow.Core.Step
use libworkflow.Core.Session
use libworkflow.Core.Session.{Session, set_status, get_last_request, report_last, waiting}
use libworkflow.Core.Action.Results.{Result, ResultType, done, wait, finish, async}
use libworkflow.Core.Action.Results
use libworkflow.Core.Action.Wrapper.{perform}
use libworkflow.Core.StateMachine.Layout.{StateMachine, get_expected_output}
use libworkflow.Core.StateMachine.Schedule.{get_next, bind_results, add_to_next, can_execute_finish}
use libworkflow.Core.StateMachine.Execution.{
  Run, with_session, execute_next, execute_nothing, executed_done, executed_error, dispatch_result,
  action_executed, prepare_session, run_action, execute_action, outputs_hold, report_about,
  report_error,
}

abbrev Exec : Type 0
Exec = Run → ℤ → Outcome (Bool × Run)

-- Whatever the first answers, the second answers too.
abbrev Extends : Exec → Exec → Type 0
Extends e e' = (r : Run) (id : ℤ) (x : Bool × Run) → e r id ≡ ok x → e' r id ≡ ok x

>>=-mono :
    {A B : Type 0} (o : Outcome A) (f f' : A → Outcome B) {b : B}
    → ((a : A) → f a ≡ ok b → f' a ≡ ok b)
    → (o >>= f) ≡ ok b
    → (o >>= f') ≡ ok b
>>=-mono (ok a) f f' h e = h a e
>>=-mono (fault x) f f' h e = e

if_mono :
    {B : Type 0} (c : Bool) (x x' y y' : Outcome B) {b : B}
    → (x ≡ ok b → x' ≡ ok b)
    → (y ≡ ok b → y' ≡ ok b)
    → (if c then x else y) ≡ ok b
    → (if c then x' else y') ≡ ok b
if_mono true x x' y y' h k e = h e
if_mono false x x' y y' h k e = k e

module _ (exec exec' : Exec) (ext : Extends exec exec') (m : StateMachine) where
  execute_next_mono :
      (r : Run) {x : Bool × Run} → execute_next exec m r ≡ ok x → execute_next exec' m r ≡ ok x
  unfolding execute_next
  execute_next_mono r e = >>=-mono (get_next m r.session) _ _ (λ n. ext _ _ _) e

  executed_done_mono :
      (r : Run) (id : ℤ) {x : Bool × Run}
      → executed_done exec m r id ≡ ok x
      → executed_done exec' m r id ≡ ok x
  unfolding executed_done
  executed_done_mono r id e =
      >>=-mono (deref (lookup id m.actions)) _ _
        (λ act. >>=-mono (outputs_hold act r.session) _ _ (λ hold.
          if_mono hold _ _ _ _
            (>>=-mono (bind_results m id (set_status id Session.done r.session)) _ _
              (λ s. execute_next_mono (with_session r s)))
            (>>=-mono
              (report_about r.session "action.contract.output"
                "Action failed it's outputs contract. Aborting")
              _ _ (λ er. >>=-mono (report_error (some er) r.session) _ _ (λ s. ext _ _ _)))))
        e

  executed_error_mono :
      (r : Run) (id : ℤ) (er : Option ErrorReport) {x : Bool × Run}
      → executed_error exec m r id er ≡ ok x
      → executed_error exec' m r id er ≡ ok x
  unfolding executed_error
  executed_error_mono r id er {x} e = elim (Option-cases (get_last_request r.session)) [
    | inl n ↦
        rw (n, executed_error)
          (>>=-mono (deref (lookup id m.actions)) _ _ (λ act. ext _ _ _)
            (rw (n, executed_error) at e))
    | inr (q, n) ↦ rw (n, executed_error) (ext _ _ _ (rw (n, executed_error) at e))
  ]

  dispatch_mono :
      (t : ResultType) (r : Run) (result : Result) {x : Bool × Run}
      → dispatch_result t exec m r result ≡ ok x
      → dispatch_result t exec' m r result ≡ ok x
  unfolding dispatch_result
  dispatch_mono done r result e = executed_done_mono r result.action_id e
  dispatch_mono wait r result e = e
  dispatch_mono Results.error r result e =
      executed_error_mono r result.action_id result.error_report e
  dispatch_mono finish r result e =
      >>=-mono
        (bind_results m result.action_id (set_status result.action_id Session.done r.session)) _ _
        (λ s. ext _ _ _) e
  dispatch_mono async r result e = e

  action_executed_mono :
      (r : Run) (result : Result) {x : Run}
      → action_executed exec m r result ≡ ok x
      → action_executed exec' m r result ≡ ok x
  unfolding action_executed
  action_executed_mono r result e =
      let (b, one, two) = >>=-eq-ok (dispatch_result result.type exec m r result) _ e in
      rw (dispatch_mono result.type r result one) two

  run_action_mono :
      (r : Run) (id : ℤ) {x : Bool × Run}
      → run_action exec m r id ≡ ok x
      → run_action exec' m r id ≡ ok x
  unfolding run_action
  run_action_mono r id {x} e = elim (Option-cases (lookup id m.actions)) [
    | inl n ↦ rw (n, run_action) (rw (n, run_action) at e)
    | inr (act, n) ↦
        rw (n, run_action)
          (>>=-mono (perform act (get_expected_output m) (prepare_session m id r.session)) _ _
            (λ p h.
              let (y, one, two) =
                >>=-eq-ok
                  (action_executed exec m
                    (record r { session = p.session; sent = r.sent ++ p.sent }) p.result)
                  _ h in
              rw (action_executed_mono _ p.result one) two)
            (rw (n, run_action) at e))
  ]

  execute_nothing_mono :
      (r : Run) {x : Bool × Run}
      → execute_nothing exec m r ≡ ok x
      → execute_nothing exec' m r ≡ ok x
  unfolding execute_nothing
  execute_nothing_mono r e =
      >>=-mono (get_next m r.session) _ _
        (λ n. >>=-mono _ _ _ (λ runs. if_mono runs _ _ _ _ (ext _ _ _) (
          >>=-mono (can_execute_finish m n.0) _ _ (λ finishes.
            if_mono finishes _ _ _ _
              (>>=-mono (add_to_next m Step.finish n.0) _ _
                (λ s. execute_next_mono (with_session r s)))
              (>>=-mono (add_to_next m Step.error n.0) _ _ (λ s.
                >>=-mono
                  (report_about s "statemachine.unexpected.noend"
                    "No end of workflow available ... aborting")
                  _ _
                  (λ er.
                    >>=-mono (report_error (some er) s) _ _
                      (λ t. execute_next_mono (with_session r t)))))))))
        e

execute_action-suc :
    (fuel : ℕ) (m : StateMachine) → Extends (execute_action fuel m) (execute_action (suc fuel) m)
unfolding execute_action
execute_action-suc zero m r id x e = absurd (cc)
execute_action-suc (suc fuel) m r id x e =
    if_mono (eqb_ℤ id Step.die) _ _ _ _ (λ h. h)
      (if_mono (eqb_ℤ id Step.nothing) _ _ _ _
        (execute_nothing_mono (execute_action fuel m) (execute_action (suc fuel) m)
          (execute_action-suc fuel m) m r)
        (run_action_mono (execute_action fuel m) (execute_action (suc fuel) m)
          (execute_action-suc fuel m) m r id))
      e

-- A run that comes to an answer comes to the same answer with any more fuel.
pub execute_action-more_fuel :
    (fuel more : ℕ) (m : StateMachine) (r : Run) (id : ℤ) {x : Bool × Run}
    → execute_action fuel m r id ≡ ok x
    → execute_action (more + fuel) m r id ≡ ok x
execute_action-more_fuel fuel zero m r id e = rw zero-add e
execute_action-more_fuel fuel (suc more) m r id {x} e =
    rw suc-add
      (execute_action-suc (more + fuel) m r id x (execute_action-more_fuel fuel more m r id e))
