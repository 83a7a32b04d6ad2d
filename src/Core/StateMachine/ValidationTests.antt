-- ===== src/Core/StateMachine/ValidationTests.antt =====
-- A small workflow goes through `validate`.
use libworkflow.Prelude.{false, true, Bool, true, ◌≡◌, refl}
use libworkflow.Prelude.Int.{eqb_ℤ, ltb_ℤ}
use libworkflow.Prelude.Key.{int_key, string_key}
use libworkflow.Prelude.Map.{lookup, insert}
use libworkflow.Prelude.Outcome.{Outcome, ok, fault}
use libworkflow.Core.Session.{Session, new_session, get_status}
use libworkflow.Core.StateMachine.Layout.{empty_machine, init, add_action, add_input, next_action}
use libworkflow.Core.StateMachine.Entry.{plan_starters}
use libworkflow.Core.StateMachine.Validation.{validate}
use libworkflow.Core.StateMachine.Validated.{
  StartersKnown, EveryLeads, validate-EveryLeads, validate-plan_starters,
}
use libworkflow.Tools.ErrorReport.{is_set, empty_report}
use libworkflow.Core.Action.Contract.{new_action}
use libworkflow.Core.StateMachine.Scenarios.{split, waiting_session}
use libworkflow.Core.Action.Contract.{expect_input, expect_output}
use libworkflow.Core.Action.Wrapper.{action_expect_input, action_expect_output}
use libworkflow.Core.StateMachine.Validation.{
  report, starting_problems, all_binding_problems, binding_problems, binding_problem, name_problem,
}

split_valid : is_set (validate (λ p. "problem") split) ≡ false
unfolding validate new_action init add_action add_input empty_machine next_action lookup insert
    eqb_ℤ ltb_ℤ is_set empty_report report starting_problems all_binding_problems binding_problems
    binding_problem name_problem action_expect_input action_expect_output expect_input expect_output
split_valid = refl

validate-EveryLeads_example : StartersKnown split split.starters × EveryLeads split split.outputs
validate-EveryLeads_example = validate-EveryLeads (λ p. "problem") split split_valid

abbrev plan_of : Outcome (Session × Bool) → Session × Bool
plan_of (ok p) = p
plan_of (fault f) = (waiting_session, true)

validate-plan_starters_example :
    (plan_of (plan_starters split split.starters waiting_session)).1 ≡ true
unfolding plan_starters init add_action add_input empty_machine next_action new_session lookup
    insert eqb_ℤ ltb_ℤ get_status
validate-plan_starters_example =
    validate-plan_starters (λ p. "problem") split waiting_session split_valid refl
