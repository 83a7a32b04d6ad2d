-- ===== src/Core/StateMachine/Steps.antt =====
-- One step of `executeAction` (core/state_machine.cpp), from what its calls answer.
use libworkflow.Prelude.{◌≡◌, refl, ap, ◌∙◌, Bool, true, none, some, [], ◌∷◌, ◌++◌, arith, length}
use libworkflow.Prelude.Int.{ℤ, eqb_ℤ}
use libworkflow.Prelude.Key.{int_key, string_key}
use libworkflow.Prelude.Map.{lookup}
use libworkflow.Prelude.Outcome.{Outcome, ok}
use libworkflow.Core.Step
use libworkflow.Core.Session.{Session, done, set_status}
use libworkflow.Core.Action.Wrapper.{Action, perform}
use libworkflow.Core.StateMachine.Layout.{StateMachine, get_expected_output}
use libworkflow.Core.StateMachine.Schedule.{
  bind_results, get_next, is_last_step, pick, promote_or, try_promote_pending, plan,
  remove_from_pending,
}
use libworkflow.Core.StateMachine.Rounds.{gives, promote_round, idle_round}
use libworkflow.Core.Action.Results.{Performed}
use libworkflow.Core.StateMachine.Execution.{
  Run, with_session, prepare_session, run_action, executed_done, outputs_hold, dispatch_result,
}

module _ (m : StateMachine) (s : Session) where
  -- The rounds of `getNext` with a last step alone in the plan.
  pub next_alone :
      (a : ℤ)
      → is_last_step a ≡ true
      → s.nexts ≡ a ∷ []
      → s.pendings ≡ []
      → get_next m s ≡ gives s a
  unfolding get_next eqb_ℤ
  next_alone a l n p = ground arith

  pub next_promoted :
      (act : Action)
      → lookup Step.cleanup m.actions ≡ some act
      → s.nexts ≡ []
      → s.pendings ≡ Step.cleanup ∷ []
      → get_next m s ≡ gives (plan Step.cleanup (remove_from_pending Step.cleanup s)) Step.cleanup
  unfolding get_next
  next_promoted act e n p =
      promote_round (length s.pendings) m s Step.nothing (rw n first_pick) (tried act e p)
      ∙ rw (ap length p) (
          idle_round 0 m (plan Step.cleanup (remove_from_pending Step.cleanup s)) Step.cleanup
            (alone n) (rest p))
    where
      first_pick : pick [] ≡ promote_or Step.nothing
      first_pick = unfold pick in refl

      tried :
          (act : Action)
          → lookup Step.cleanup m.actions ≡ some act
          → s.pendings ≡ Step.cleanup ∷ []
          → try_promote_pending m s
            ≡ ok (some (plan Step.cleanup (remove_from_pending Step.cleanup s)))
      tried act e p = unfold try_promote_pending eqb_ℤ in ground (arith, e, p)

      alone :
          s.nexts ≡ []
          → pick (plan Step.cleanup (remove_from_pending Step.cleanup s)).nexts
            ≡ promote_or Step.cleanup
      alone n = unfold plan remove_from_pending pick eqb_ℤ in ground (arith, n)

      rest :
          s.pendings ≡ Step.cleanup ∷ []
          → try_promote_pending m (plan Step.cleanup (remove_from_pending Step.cleanup s)) ≡ ok none
      rest p = unfold plan remove_from_pending try_promote_pending eqb_ℤ in ground (arith, p)

module _ (exec : Run → ℤ → Outcome (Bool × Run)) (m : StateMachine) (r : Run) (id : ℤ)
    (act : Action) (present : lookup id m.actions ≡ some act) where
  -- An action that is done, as `executeAction` and `actionExecuted` go through it.
  pub done_step :
      (s t : Session) (a : ℤ)
      → outputs_hold act r.session ≡ ok true
      → bind_results m id (set_status id done r.session) ≡ ok s
      → get_next m s ≡ gives t a
      → executed_done exec m r id ≡ exec (with_session r t) a
  unfolding executed_done
  done_step s t a h b n = rw (present, executed_done, h, b, n)

  pub run_step :
      (b : Bool) (p : Performed) {r' : Run}
      → perform act (get_expected_output m) (prepare_session m id r.session) ≡ ok p
      → dispatch_result p.result.type exec m
          (record r { session = p.session; sent = r.sent ++ p.sent })
          p.result
        ≡ ok (b, r')
      → run_action exec m r id ≡ ok (true, r')
  unfolding run_action
  run_step b p e d = rw (present, run_action, e, d)
