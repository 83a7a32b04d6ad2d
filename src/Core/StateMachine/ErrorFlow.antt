-- ===== src/Core/StateMachine/ErrorFlow.antt =====
-- The error flow that every workflow starts with: `Error`, then `Cleanup`, then `Die`.
use libworkflow.Prelude.{ℕ, suc, ◌≡◌, refl, ap, ◌∙◌, true, none, some, List, [], ◌∷◌, ◌++◌, is_some}
use libworkflow.Prelude.Int.{ℤ, eqb_ℤ}
use libworkflow.Prelude.Key.{int_key, string_key}
use libworkflow.Prelude.Map.{Map, lookup}
use libworkflow.Prelude.IdSet
use libworkflow.Prelude.Outcome.{ok}
use libworkflow.Core.Step
use libworkflow.Core.Request.{Request}
use libworkflow.Core.Session.{Session, done, set_status, up_current_execution_level}
use libworkflow.Core.Action.Contract.{set_action_id}
use libworkflow.Core.Action.Wrapper.{Action, error_wrapper, cleanup_wrapper, perform}
use libworkflow.Core.StateMachine.Layout.{StateMachine, list_at, link, wrapped, next_action}
use libworkflow.Core.StateMachine.Schedule.{
  bind_results, bind_result, bind_results_loop, add_to_next, plan,
}
use libworkflow.Core.Action.Results.{result_done}
use libworkflow.Core.StateMachine.Execution.{
  Run, prepare_session, execute_action, outputs_hold, dispatch_result,
}
use libworkflow.Core.StateMachine.Switch.{Switched, prepare-Switched}
use libworkflow.Core.StateMachine.Steps.{next_alone, done_step, run_step}

-- The actions are all in the machine.
abbrev pub Known : Map ℤ Action → List ℤ → Type 0
Known actions [] = Unit {0}
Known actions (i ∷ is) = (is_some (lookup i actions) ≡ true) × Known actions is

-- The part of `init` that the error flow needs, in any machine that still has it.
pub record HasErrorFlow (m : StateMachine) : Type 0 where
  pub error_action :
      lookup Step.error m.actions ≡ some (wrapped error_wrapper Step.error next_action)
  pub error_bindings : list_at Step.error m.outputs ≡ link Step.error Step.cleanup ∷ []
  pub cleanup_action :
      lookup Step.cleanup m.actions ≡ some (wrapped cleanup_wrapper Step.cleanup next_action)
  pub cleanup_bindings : list_at Step.cleanup m.outputs ≡ link Step.cleanup Step.die ∷ []
  pub no_die : lookup Step.die m.actions ≡ none
  pub cleanup_sources : Known m.actions (list_at Step.cleanup m.inputs_map)

module _ (m : StateMachine) (flow : HasErrorFlow m) where
  die_ends :
      (fuel : ℕ) (r : Run) (q : Request)
      → r.session.request ≡ some q
      → execute_action (suc fuel) m r Step.die ≡ ok (true, record r { ended = r.ended ++ q ∷ [] })
  unfolding execute_action eqb_ℤ
  die_ends fuel r q e = rw e

  cleanup_binds : (s : Session) → bind_results m Step.cleanup s ≡ ok (plan Step.die s)
  unfolding bind_results bind_result add_to_next eqb_ℤ
  cleanup_binds s = rw (flow.cleanup_bindings, bind_results_loop) (rw (flow.no_die, bind_result))

  abbrev cleanup_act : Action
  cleanup_act = wrapped cleanup_wrapper Step.cleanup next_action

  -- From `Cleanup` on: the request ends, and nothing more is sent.
  pub cleanup_ends :
      (fuel : ℕ) (r : Run) (q : Request)
      → r.session.request ≡ some q
      → (s : Session) × (execute_action (suc (suc fuel)) m r Step.cleanup
          ≡ ok (true, record { session = s; sent = r.sent ++ []; ended = r.ended ++ q ∷ [] }))
  unfolding execute_action eqb_ℤ set_action_id
  cleanup_ends fuel r q e = (
    after,
    run_step (execute_action (suc fuel) m) m r Step.cleanup cleanup_act flow.cleanup_action true
        (record {
          session = up_current_execution_level t;
          sent = [];
          result = result_done cleanup_act.fields;
        })
        (unfold next_action perform in refl)
        (unfold dispatch_result result_done next_action in
          done_step (execute_action (suc fuel) m) m
            (record {
              session = up_current_execution_level t;
              sent = r.sent ++ [];
              ended = r.ended;
            })
            Step.cleanup cleanup_act flow.cleanup_action after after Step.die
            (unfold outputs_hold in refl)
            (cleanup_binds (set_status Step.cleanup done (up_current_execution_level t)))
            (next_alone m after Step.die refl
              (unfold plan up_current_execution_level in ap (IdSet.insert Step.die) sw.no_nexts)
              (unfold plan up_current_execution_level in sw.no_pendings))
          ∙ die_ends fuel (record { session = after; sent = r.sent ++ []; ended = r.ended }) q
              (unfold plan up_current_execution_level in sw.same_request ∙ e)),
  )
    where
      t : Session
      t = prepare_session m Step.cleanup r.session

      sw : Switched m r.session t
      sw = prepare-Switched m Step.cleanup r.session refl

      after : Session
      after = plan Step.die (set_status Step.cleanup done (up_current_execution_level t))
