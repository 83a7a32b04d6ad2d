-- ===== src/Core/StateMachine/Async.antt =====
-- Actions that finish on their own thread: asyncDone, asyncWait and asyncError of core/action.cpp, which
-- end in `actionAsyncFinished`.
use libworkflow.Prelude.{
  ℕ, String, true, false, ◌≡◌, refl, ap, sym, subst, ◌∙◌, Option, none, some, List, if◌then◌else◌,
}
use libworkflow.Prelude.Int.{ℤ}
use libworkflow.Prelude.Key.{int_key}
use libworkflow.Prelude.Map.{lookup, lookup-insert_self}
use libworkflow.Prelude.Outcome.{Outcome, ok, fault, null_pointer, deref, ◌>>=◌}
use libworkflow.Core.Step
use libworkflow.Core.Request.{Request}
use libworkflow.Core.Session
use libworkflow.Core.Session.{Session, set_status}
use libworkflow.Core.Action.Contract.{ActionData, set_action_id}
use libworkflow.Core.Action.Results
use libworkflow.Core.Action.Results.{
  ResultType, Result, result_done, result_wait, result_error, result_error_report,
}
use libworkflow.Core.Action.Wrapper.{
  Action, WrapperKind, is_wrapped, unwrapped, interrupt_wrapper, error_wrapper, finish_wrapper,
  cleanup_wrapper,
}
use libworkflow.Core.StateMachine.Layout.{StateMachine, wrapped, wrapper_for, install, add_action}
use libworkflow.Core.StateMachine.Built.{bound_machine, expose_properties-Same}
use libworkflow.Core.Bindings.{OutputBinding}
use libworkflow.Core.StateMachine.Execution.{Run, with_session}
use libworkflow.Core.StateMachine.Entry.{action_async_finished}
use libworkflow.Tools.ErrorReport.{ErrorReport}

-- `getStateMachine().lock()`
abbrev pub machine_of : ActionData → StateMachine → Option StateMachine
machine_of a m = if a.has_machine then some m else none

unfoldable pub async_done : ℕ → StateMachine → ActionData → Run → Outcome Run
unfolding result_done action_async_finished
async_done fuel m a r =
    deref (machine_of a m) >>= λ own. action_async_finished fuel own (result_done a) r

unfoldable pub async_wait : ℕ → StateMachine → ActionData → Run → Outcome Run
unfolding result_wait action_async_finished
async_wait fuel m a r =
    deref (machine_of a m) >>= λ own. action_async_finished fuel own (result_wait a) r

unfoldable pub async_error :
    ℕ → StateMachine → ActionData → (key message : String) → Run → Outcome Run
unfolding result_error action_async_finished
async_error fuel m a key message r = result_error a r.session key message >>= λ result.
    deref (machine_of a m) >>= λ own. action_async_finished fuel own result r

unfoldable pub async_error_report :
    ℕ → StateMachine → ActionData → Option ErrorReport → Run → Outcome Run
unfolding result_error_report action_async_finished
async_error_report fuel m a er r = result_error_report a r.session er >>= λ result.
    deref (machine_of a m) >>= λ own. action_async_finished fuel own result r

-- What `addAction` registers.
added-there :
    (id : ℤ) (act : Action) (bs : List OutputBinding) (m : StateMachine) {w : WrapperKind}
    → wrapper_for id ≡ some w
    → lookup id (add_action id act bs m).actions ≡ some (wrapped w id act)
unfolding add_action install
added-there id act bs m {w} wraps =
    subst
      (λ o.
        lookup id
          (elim o as (λ x. StateMachine) [ none ↦ m | some v ↦ install v id act bs m ]).actions
        ≡ some (wrapped w id act))
      (sym wraps)
      (ap (lookup id)
          (expose_properties-Same id act.fields.properties
            (bound_machine w id act bs m)).same_actions
        ∙ lookup-insert_self id (wrapped w id act) m.actions)

module _ (fuel : ℕ) (m : StateMachine) (a : ActionData) (r : Run) where
  -- The run, once the action has answered that it goes on by itself.
  abbrev pub left_async : Run
  left_async = with_session r (set_status a.action_id Session.async r.session)

-- A wrapper keeps the call of `setStateMachine` to itself.
wrapped-no_machine :
    (w : WrapperKind) (id : ℤ) (act : Action)
    → is_wrapped w ≡ true
    → act.fields.has_machine ≡ false
    → (wrapped w id act).fields.has_machine ≡ false
unfolding set_action_id
wrapped-no_machine unwrapped id act around none_yet = absurd (cc)
wrapped-no_machine interrupt_wrapper id act around none_yet = none_yet
wrapped-no_machine error_wrapper id act around none_yet = none_yet
wrapped-no_machine finish_wrapper id act around none_yet = none_yet
wrapped-no_machine cleanup_wrapper id act around none_yet = none_yet

unlinked-faults :
    (a : ActionData) (m : StateMachine) (next : StateMachine → Outcome Run)
    → a.has_machine ≡ false
    → (deref (machine_of a m) >>= next) ≡ fault null_pointer
unlinked-faults a m next unlinked = rw unlinked refl

error-faults :
    (original : Option Request) (result : Request → Result) (rest : Result → Outcome Run)
    → ((q : Request) → rest (result q) ≡ fault null_pointer)
    → ((deref original >>= λ q. ok (result q)) >>= rest) ≡ fault null_pointer
error-faults none result rest each = refl
error-faults (some q) result rest each = each q

report-faults :
    (er : Option ErrorReport) (a : ActionData) (s : Session) (rest : Result → Outcome Run)
    → ((result : Result) → rest result ≡ fault null_pointer)
    → (result_error_report a s er >>= rest) ≡ fault null_pointer
unfolding result_error_report
report-faults none a s rest each = refl
report-faults (some report) a s rest each = error-faults s.request _ rest (λ q. each _)

-- An action that `addAction` wraps, under `Interrupt`, `Error`, `Finish` or `Cleanup`, and that had no
-- state machine before, cannot finish by itself: whichever way it reports, it follows a null pointer.
pub async-wrapped_faults :
    (fuel : ℕ) (m : StateMachine) (id : ℤ) (act : Action) (bs : List OutputBinding) (r : Run)
    {w : WrapperKind}
    → wrapper_for id ≡ some w
    → is_wrapped w ≡ true
    → act.fields.has_machine ≡ false
    → (added : Action) × (lookup id (add_action id act bs m).actions ≡ some added)
      × (async_done fuel (add_action id act bs m) added.fields r ≡ fault null_pointer)
      × (async_wait fuel (add_action id act bs m) added.fields r ≡ fault null_pointer)
      × ((key message : String)
          → async_error fuel (add_action id act bs m) added.fields key message r
            ≡ fault null_pointer)
      × ((er : Option ErrorReport)
          → async_error_report fuel (add_action id act bs m) added.fields er r ≡ fault null_pointer)
unfolding async_done async_wait async_error async_error_report result_error
async-wrapped_faults fuel m id act bs r {w} wraps around none_yet =
    let m' = add_action id act bs m in
    let added : Action = wrapped w id act in
    let unlinked : added.fields.has_machine ≡ false = wrapped-no_machine w id act around none_yet in
    (
      added,
      added-there id act bs m wraps,
      unlinked-faults added.fields m' _ unlinked,
      unlinked-faults added.fields m' _ unlinked,
      (λ key message.
          error-faults r.session.request _ _ (λ q. unlinked-faults added.fields m' _ unlinked)),
      (λ er.
          report-faults er added.fields r.session _
            (λ result. unlinked-faults added.fields m' _ unlinked)),
    )
