-- ===== src/Core/StateMachine/Validation.antt =====
-- `StateMachine::validate` (core/state_machine.cpp). The code writes each problem into one text, and
-- a text that is not empty is the error; how a problem is written is an argument. The set of unused
-- actions, which nothing reads, is left out.
use Prim.Native.String.{◌++◌}
use libworkflow.Prelude.{String, ◌||◌, Option, none, some, List, [], ◌∷◌, if◌then◌else◌}
use libworkflow.Prelude.Int.{ℤ, eqb_ℤ}
use libworkflow.Prelude.Key.{int_key}
use libworkflow.Prelude.Map.{Map, lookup, has}
use libworkflow.Core.Bindings.{InputBinding, OutputBinding}
use libworkflow.Core.Step
use libworkflow.Core.Action.Wrapper.{Action, action_expect_input, action_expect_output}
use libworkflow.Core.StateMachine.Layout.{StateMachine}
use libworkflow.Tools.ErrorReport.{ErrorReport, empty_report, set_error, is_set}

pub data Problem : Type 0 where
  no_starter : InputBinding → Problem
  no_origin : OutputBinding → Problem
  no_target : OutputBinding → Problem
  wrong_output : OutputBinding → ErrorReport → Problem
  wrong_input : OutputBinding → ErrorReport → Problem

-- The problem of a binding whose two ends are fine: the names it uses. Nothing is asked of `Die`, which
-- is no action, nor of `Finish`, which takes any input.
unfoldable pub name_problem : Action → Option Action → OutputBinding → Option Problem
name_problem from target b =
    let out = action_expect_output from b.from_action_output in
    if is_set out
    then some (wrong_output b out)
    else if eqb_ℤ b.to_action_id Step.die || eqb_ℤ b.to_action_id Step.finish
    then none
    else elim target [
      | none ↦ none
      | some to ↦
          let into = action_expect_input to b.to_action_input in
          if is_set into then some (wrong_input b into) else none
    ]

unfoldable pub binding_problem : StateMachine → OutputBinding → Option Problem
binding_problem m b = elim (lookup b.from_action_id m.actions) [
  | none ↦ some (no_origin b)
  | some from ↦ elim (lookup b.to_action_id m.actions) [
    | none ↦ if eqb_ℤ b.to_action_id Step.die then name_problem from none b else some (no_target b)
    | some to ↦ name_problem from (some to) b
  ]
]

abbrev pub note : Option Problem → List Problem → List Problem
note none ps = ps
note (some p) ps = p ∷ ps

unfoldable pub binding_problems : StateMachine → List OutputBinding → List Problem → List Problem
binding_problems m [] after = after
binding_problems m (b ∷ bs) after = note (binding_problem m b) (binding_problems m bs after)

unfoldable pub all_binding_problems : StateMachine → Map ℤ (List OutputBinding) → List Problem
all_binding_problems m [] = []
all_binding_problems m ((id, bs) ∷ rest) = binding_problems m bs (all_binding_problems m rest)

abbrev pub written : (Problem → String) → List Problem → String
written describe [] = ""
written describe (p ∷ ps) = describe p ++ written describe ps

unfoldable pub report : (Problem → String) → List Problem → ErrorReport
report describe [] = empty_report
report describe (p ∷ ps) =
    set_error empty_report "workflow.structure.invalid" (written describe (p ∷ ps))

unfoldable pub starting_problems : StateMachine → List InputBinding → List Problem → List Problem
starting_problems m [] after = after
starting_problems m (b ∷ bs) after =
    let rest = starting_problems m bs after in
    if has b.action_id m.actions then rest else no_starter b ∷ rest

unfoldable pub validate : (Problem → String) → StateMachine → ErrorReport
validate describe m =
    report describe (starting_problems m m.starters (all_binding_problems m m.outputs))
