-- ===== src/Core/Action/Contract.antt =====
-- The contract of an action: its named inputs and outputs, and the checks made against them
-- (core/action.cpp, core/put_definition.h, tools/type_checker.h).
-- An error text is kept without the fingerprint of the session that the code puts in front; that the
-- fingerprint follows the pointer to the state machine is kept.
use Prim.Native.String.{◌++◌}
use libworkflow.Prelude.{
  String, Bool, true, false, ◌&&◌, ◌||◌, Option, none, some, [], ◌∷◌, if◌then◌else◌, is_empty,
}
use libworkflow.Prelude.Int.{ℤ}
use libworkflow.Prelude.Key.{int_key, string_key}
use libworkflow.Prelude.Map.{Map, insert, has}
use libworkflow.Prelude.Outcome.{Outcome, ok, fault, null_pointer, deref, ◌>>=◌}
use libworkflow.Core.Context.{Context, is_skip, is_empty_list}
use libworkflow.Core.Session.{Session, get_input, get_output, set_output}
use libworkflow.Tools.PropertySet.Typed.{PropertySet, empty_set, set_guarded}
use libworkflow.Tools.ErrorReport.{ErrorReport, set_error, empty_report}

-- `ContextTypeChecker<T>`: a default value of the class, and the cast to it.
pub record TypeChecker : Type 0 where
  pub generate : Context
  pub check : Option Context → Bool

pub record PutDefinition : Type 0 where
  pub put_name : String
  pub description : String
  pub checker : TypeChecker
  pub mandatory : Bool
  pub ignore_empty : Bool
  pub allow_skip : Bool

unfoldable pub new_put_definition : String → TypeChecker → Bool → PutDefinition
new_put_definition name checker mandatory = record {
  put_name = name;
  description = "";
  checker = checker;
  mandatory = mandatory;
  ignore_empty = false;
  allow_skip = false;
}

-- The fields of class `Action`. Of the weak pointer to the state machine it is kept whether it has been
-- set: the machine itself is an argument where it is used.
pub record ActionData : Type 0 where
  pub action_id : ℤ
  pub name : String
  pub properties : PropertySet
  pub inputs : Map String PutDefinition
  pub outputs : Map String PutDefinition
  pub has_machine : Bool

unfoldable pub new_action : String → ActionData
unfolding set_guarded empty_set
new_action name = record {
  action_id = ℤ.pos 0;
  name = name;
  properties = set_guarded true empty_set;
  inputs = [];
  outputs = [];
  has_machine = false;
}

unfoldable pub set_action_id : ℤ → ActionData → ActionData
set_action_id id a = record a { action_id = id }

-- `setStateMachine`
unfoldable pub set_state_machine : ActionData → ActionData
set_state_machine a = record a { has_machine = true }

-- `fingerprint(session)` with a session, put into a text: it follows the pointer to the machine.
abbrev pub fingerprint {ℓ} : {A : Type ℓ} → ActionData → A → Outcome A
fingerprint a text = if a.has_machine then ok text else fault null_pointer

unfoldable pub define_input : PutDefinition → ActionData → ActionData
define_input d a = record a { inputs = insert d.put_name d a.inputs }

unfoldable pub define_output : PutDefinition → ActionData → ActionData
define_output d a = record a { outputs = insert d.put_name d a.outputs }

unfoldable pub clear_inputs : ActionData → ActionData
clear_inputs a = record a { inputs = [] }

unfoldable pub clear_outputs : ActionData → ActionData
clear_outputs a = record a { outputs = [] }

-- The body of the loop of `checkInputs`: whether this input lets the loop go on.
unfoldable pub check_input :
    ActionData → PutDefinition → Option Context → ErrorReport → Outcome (Bool × ErrorReport)
check_input a d none er =
    if d.mandatory
    then fingerprint a
        (false, set_error er "action.input.nil" (" No context provided for input " ++ d.put_name))
    else ok (true, er)
check_input a d (some c) er =
    if d.checker.check (some c)
    then (if d.ignore_empty && is_empty_list c then ok (false, er) else ok (true, er))
    else fingerprint a (
      false,
      set_error er "action.input.invalid" (" Invalid context provided for input " ++ d.put_name),
    )

unfoldable pub check_inputs_loop :
    ActionData → Map String PutDefinition → Session → ErrorReport → Outcome (Bool × ErrorReport)
unfolding check_input get_input
check_inputs_loop a [] session er = ok (true, er)
check_inputs_loop a ((key, d) ∷ ds) session er =
    check_input a d (get_input a.action_id d.put_name session) er >>= λ checked.
    let rest = check_inputs_loop a ds session checked.1 in
    if checked.0 then rest else ok (false, checked.1)

unfoldable pub check_inputs : ActionData → Session → ErrorReport → Outcome (Bool × ErrorReport)
unfolding check_inputs_loop
check_inputs a session er = check_inputs_loop a a.inputs session er

-- What one output does to the loop of `checkOutputs`.
pub data Verdict : Type 0 where
  go_on : Verdict
  accept : Verdict
  reject : (key message : String) → Verdict

unfoldable pub check_output : PutDefinition → Option Context → Verdict
unfolding is_skip
check_output d none =
    if d.mandatory
    then reject "action.output.nil" (" No context provided for output " ++ d.put_name)
    else go_on
check_output d (some c) =
    if d.checker.check (some c)
    then accept
    else if is_skip (some c) && d.allow_skip
    then go_on
    else reject "action.output.invalid" (" Invalid context provided for output " ++ d.put_name)

unfoldable pub check_outputs_loop :
    ActionData → Map String PutDefinition → Session → ErrorReport → Outcome (Bool × ErrorReport)
unfolding check_output get_output
check_outputs_loop a [] session er = ok (true, er)
check_outputs_loop a ((key, d) ∷ ds) session er =
    let rest = check_outputs_loop a ds session er in
    elim (check_output d (get_output a.action_id d.put_name session)) [
      | go_on ↦ rest
      | accept ↦ ok (true, er)
      | reject k m ↦ fingerprint a (false, set_error er k m)
    ]

unfoldable pub check_outputs : ActionData → Session → ErrorReport → Outcome (Bool × ErrorReport)
unfolding check_outputs_loop
check_outputs a session er = check_outputs_loop a a.outputs session er

-- An input outside the contract is null, unless it is forced.
unfoldable pub read_input :
    ActionData → Session → String → (force : Bool) → Outcome (Option Context)
read_input a session name force =
    if has name a.inputs || force
    then ok (get_input a.action_id name session)
    else fingerprint a none

-- An output outside the contract is dropped, with a log line that follows the context too; the empty
-- name always goes.
unfoldable pub write_output : ActionData → String → Option Context → Session → Outcome Session
write_output a name c session =
    if is_empty name || has name a.outputs
    then ok (set_output a.action_id name c session)
    else fingerprint a session >>= λ session'. deref c >>= λ logged. ok session'

unfoldable pub expect_input : ActionData → String → ErrorReport
unfolding empty_report
expect_input a key =
    if has key a.inputs
    then empty_report
    else if is_empty key
    then empty_report
    else set_error empty_report "action.unexpected.input"
        (key ++ " is invalid, targeted input doesn't exist")

unfoldable pub expect_output : ActionData → String → ErrorReport
unfolding empty_report
expect_output a key =
    if has key a.outputs
    then empty_report
    else if is_empty key
    then empty_report
    else set_error empty_report "action.unexpected.output"
        (key ++ " is invalid, targeted output doesn't exist")
