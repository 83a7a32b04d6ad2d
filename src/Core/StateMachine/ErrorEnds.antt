-- ===== src/Core/StateMachine/ErrorEnds.antt =====
-- What running `Error` comes to (core/state_machine.cpp, core/action_wrappers.cpp).
use libworkflow.Prelude.{
  ℕ, suc, ◌≡◌, refl, ap, ◌∙◌, ◌⊎◌, inl, inr, Bool, true, false, some, List, [], ◌∷◌, ◌++◌,
  append-nil, not, not-false, arith, is_some,
}
use libworkflow.Prelude.Int.{ℤ, eqb_ℤ}
use libworkflow.Prelude.Key.{int_key, string_key}
use libworkflow.Prelude.Map.{lookup, lookup-insert}
use libworkflow.Prelude.IdSet
use libworkflow.Prelude.Outcome.{ok}
use libworkflow.Core.Step
use libworkflow.Core.Target.{error}
use libworkflow.Core.Request.{Request, create_reply, set_error_report}
use libworkflow.Core.Session.{
  Session, done, set_status, get_status, set_input, get_output, row, get_last_request, last,
  up_current_execution_level,
}
use libworkflow.Core.Action.Contract.{set_action_id}
use libworkflow.Core.Action.Wrapper.{Action, error_wrapper, cleanup_wrapper, perform, wrap_perform}
use libworkflow.Core.StateMachine.Layout.{
  StateMachine, list_at, wrapped, next_action, get_expected_output,
}
use libworkflow.Core.StateMachine.Schedule.{
  any_skip, all_done, bind_results, bind_result, bind_results_loop, add_to_next, add_to_pending,
  get_next, can_execute_action, can_pend_action, place, plan, pend, remove_from_pending,
  remove_from_next,
}
use libworkflow.Core.StateMachine.Rounds.{gives}
use libworkflow.Core.Action.Results.{result_done}
use libworkflow.Core.StateMachine.Execution.{
  Run, prepare_session, execute_action, outputs_hold, dispatch_result,
}
use libworkflow.Tools.ErrorReport.{with_parent}
use libworkflow.Core.StateMachine.Switch.{Switched, prepare-Switched}
use libworkflow.Core.StateMachine.Steps.{next_alone, next_promoted, done_step, run_step}
use libworkflow.Core.StateMachine.ErrorFlow.{HasErrorFlow, Known, cleanup_ends}

all_done-Known :
    (m : StateMachine) (s : Session) (is : List ℤ)
    → Known m.actions is
    → ((i : ℤ) → is_some (lookup i m.actions) ≡ true → is_some (lookup i s.status) ≡ true)
    → (all_done m s is ≡ ok true) ⊎ (all_done m s is ≡ ok false)
unfolding all_done get_status
all_done-Known m s [] k h = inl refl
all_done-Known m s (i ∷ is) k h = ground (arith, k, h i, all_done-Known m s is k.1 h)

module _ (m : StateMachine) (flow : HasErrorFlow m) (s : Session) where
  abbrev fed : Session
  fed = set_input Step.cleanup "" (get_output Step.error "" s) s

  to_cleanup :
      {x : Session}
      → place m (wrapped cleanup_wrapper Step.cleanup next_action) Step.cleanup fed ≡ ok x
      → bind_results m Step.error s ≡ ok x
  unfolding bind_results bind_result bind_results_loop
  to_cleanup p =
      rw (flow.error_bindings, bind_results_loop)
        (rw (flow.cleanup_action, bind_result) (rw flow.error_action (rw p)))

  cleanup_able :
      {b : Bool}
      → all_done m fed (list_at Step.cleanup m.inputs_map) ≡ ok b
      → can_execute_action m fed (wrapped cleanup_wrapper Step.cleanup next_action) ≡ ok b
  unfolding can_execute_action next_action set_action_id
  cleanup_able e = e

  -- `Cleanup` follows `Error`: planned at once, or pending and promoted.
  error_binds :
      s.nexts ≡ []
      → s.pendings ≡ []
      → ((i : ℤ) → is_some (lookup i m.actions) ≡ true → is_some (lookup i s.status) ≡ true)
      → any_skip (row Step.cleanup fed.inputs) ≡ false
      → (s' t : Session) × (bind_results m Step.error s ≡ ok s')
        × (get_next m s' ≡ gives t Step.cleanup)
        × (t.request ≡ s.request)
  unfolding set_input set_action_id
  error_binds n p h k =
      elim (all_done-Known m fed (list_at Step.cleanup m.inputs_map) flow.cleanup_sources h) [
        | inl a ↦ (
          plan Step.cleanup (remove_from_pending Step.cleanup fed),
          plan Step.cleanup (remove_from_pending Step.cleanup fed),
          to_cleanup
              (unfold place add_to_next eqb_ℤ in rw (k, cleanup_able a, flow.cleanup_action)),
          next_alone m (plan Step.cleanup (remove_from_pending Step.cleanup fed)) Step.cleanup
              (unfold eqb_ℤ in refl)
              (unfold plan remove_from_pending in ap (IdSet.insert Step.cleanup) n)
              (unfold plan remove_from_pending in ap (IdSet.erase Step.cleanup) p),
          unfold plan remove_from_pending in refl,
        )
        | inr a ↦ (
          pend Step.cleanup (remove_from_next Step.cleanup fed),
          plan Step.cleanup (
              remove_from_pending Step.cleanup
                (pend Step.cleanup (remove_from_next Step.cleanup fed))),
          to_cleanup (
              unfold place add_to_pending can_pend_action next_action in
              rw (k, cleanup_able a, flow.cleanup_action)),
          next_promoted m (pend Step.cleanup (remove_from_next Step.cleanup fed))
              (wrapped cleanup_wrapper Step.cleanup next_action) flow.cleanup_action
              (unfold pend remove_from_next in ap (IdSet.erase Step.cleanup) n)
              (unfold pend remove_from_next in ap (IdSet.insert Step.cleanup) p),
          unfold plan pend remove_from_pending remove_from_next in refl,
        )
      ]

-- The reply of `ErrorWrapper::wrapPerform`: the report of the latest request, on top of the target
-- of the original one.
abbrev pub error_answer : (original latest : Request) → Request
error_answer original latest =
    let answer =
      set_error_report (create_reply original)
        (some (with_parent original.target latest.report "" "")) in
    record answer { target = record answer.target { target = error } }

-- No context that `Error` hands to `Cleanup` is a `SkipCtx`.
abbrev pub no_cleanup_skip : Session → Bool
no_cleanup_skip s =
    not (
      any_skip (row Step.cleanup (set_input Step.cleanup "" (get_output Step.error "" s) s).inputs))

no_skip-same :
    (s t : Session)
    → t.inputs ≡ s.inputs
    → t.outputs ≡ s.outputs
    → no_cleanup_skip s ≡ true
    → any_skip (row Step.cleanup (set_input Step.cleanup "" (get_output Step.error "" t) t).inputs)
      ≡ false
unfolding set_input get_output
no_skip-same s t i o k = rw (i, o) (not-false k)

module _ (m : StateMachine) (flow : HasErrorFlow m) where
  abbrev error_act : Action
  error_act = wrapped error_wrapper Step.error next_action

  error_performs :
      (s : Session) (q l : Request)
      → s.request ≡ some q
      → get_last_request s ≡ some l
      → perform error_act (get_expected_output m) s
        ≡ ok (record {
          session = up_current_execution_level s;
          sent = error_answer q l ∷ [];
          result = result_done error_act.fields;
        })
  unfolding perform wrap_perform next_action
  error_performs s q l e f = rw (f, e)

  -- Where a machine has the error flow, and no `SkipCtx` goes from `Error` to `Cleanup`, running
  -- `Error` sends one error reply, with the report of the latest request, and then ends the request;
  -- three calls of `executeAction` are enough.
  pub error_ends :
      (fuel : ℕ) (r : Run) (q l : Request)
      → r.session.request ≡ some q
      → get_last_request r.session ≡ some l
      → no_cleanup_skip r.session ≡ true
      → (s : Session) × (execute_action (suc (suc (suc fuel))) m r Step.error
          ≡ ok (
            true,
            record {
              session = s;
              sent = r.sent ++ error_answer q l ∷ [];
              ended = r.ended ++ q ∷ [];
            },
          ))
  unfolding execute_action eqb_ℤ set_action_id get_last_request
  error_ends fuel r q l e f k =
      let (s', t', binds, next, req) =
        error_binds m flow s sw.no_nexts sw.no_pendings
          (λ i h. ground (arith, sw.marked i h, lookup-insert Step.error i done t.status))
          (no_skip-same r.session s (unfold up_current_execution_level in sw.same_inputs)
            (unfold up_current_execution_level in sw.same_outputs) k) in
      let (z, ends) =
        cleanup_ends m flow fuel
          (record { session = t'; sent = r.sent ++ error_answer q l ∷ []; ended = r.ended }) q
          (req ∙ (unfold up_current_execution_level in sw.same_request) ∙ e) in
      (
        z,
        run_step (execute_action (suc (suc fuel)) m) m r Step.error error_act flow.error_action true
            (record {
              session = u;
              sent = error_answer q l ∷ [];
              result = result_done error_act.fields;
            })
            (error_performs t q l (sw.same_request ∙ e) (ap last sw.same_requests ∙ f))
            (unfold dispatch_result result_done next_action in
              done_step (execute_action (suc (suc fuel)) m) m
                (record { session = u; sent = r.sent ++ error_answer q l ∷ []; ended = r.ended })
                Step.error error_act flow.error_action s' t' Step.cleanup
                (unfold outputs_hold in refl) binds next
              ∙ ends
              ∙ rw (append-nil (r.sent ++ error_answer q l ∷ []))),
      )
    where
      t : Session
      t = prepare_session m Step.error r.session

      sw : Switched m r.session t
      sw = prepare-Switched m Step.error r.session refl

      u : Session
      u = up_current_execution_level t

      s : Session
      s = set_status Step.error done u
