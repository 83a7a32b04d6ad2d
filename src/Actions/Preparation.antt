-- ===== src/Actions/Preparation.antt =====
-- actions/communication/execute_workflow.cpp: how the action takes over the contract of the workflow
-- that it runs. A null session is `none`. `blank` is what `operator[]` makes for a missing name.
use libworkflow.Prelude.{
  String, Bool, true, false, not, ◌&&◌, ◌||◌, Option, none, some, List, [], ◌∷◌, is_empty,
  if◌then◌else◌,
}
use libworkflow.Prelude.Int.{ℤ}
use libworkflow.Prelude.Key.{string_key, int_key, ◌==◌}
use libworkflow.Prelude.Map.{Map, lookup, insert, has}
use libworkflow.Prelude.Outcome.{Outcome, ok, at, deref, ◌>>=◌}
use libworkflow.Core.Bindings.{InputBinding, OutputBinding}
use libworkflow.Core.Session.{Session, get_bypass}
use libworkflow.Core.Workflow.{Workflow}
use libworkflow.Core.Action.Contract.{
  ActionData, PutDefinition, fingerprint, define_input, define_output, clear_inputs, clear_outputs,
  check_inputs, expect_input, expect_output,
}
use libworkflow.Core.Action.Properties.{bool_property, string_property}
use libworkflow.Core.Action.Wrapper.{Action, contract}
use libworkflow.Core.StateMachine.Layout.{StateMachine, get_enders}
use libworkflow.Tools.ErrorReport.{ErrorReport, set_error, empty_report}
use libworkflow.Tools.PropertySet.Typed.{PropertySet, has_property}
use libworkflow.Tools.PropertySet.Kinds.{
  get_bool_property, get_string_property, set_string_property, get_bool_sproperty,
  set_bool_sproperty, get_double_sproperty, set_double_sproperty, get_string_sproperty,
  set_string_sproperty, get_uint_sproperty, set_uint_sproperty, get_custom_sproperty,
  set_custom_sproperty,
}
use libworkflow.Actions.ExecuteWorkflow.{ExecuteWorkflow}

-- The stricter of what was expected and what one more action expects.
unfoldable pub stricter : PutDefinition → PutDefinition → PutDefinition
stricter d ours = record ours {
  mandatory = d.mandatory || ours.mandatory;
  allow_skip = d.allow_skip || ours.allow_skip;
  ignore_empty = d.ignore_empty || ours.ignore_empty;
}

abbrev pub put_at : PutDefinition → Map String PutDefinition → String → PutDefinition
put_at blank m key = elim (lookup key m) [ none ↦ blank | some d ↦ d ]

-- The body of the loop over the starters: the name of the workflow's input is looked for, and the
-- input of the action is defined.
unfoldable pub take_input :
    (blank : PutDefinition) → Map ℤ Action → InputBinding → ActionData → Outcome ActionData
unfolding contract define_input stricter
take_input blank actions start a = do
  act ← at (lookup start.action_id actions)
  if has start.workflow_input a.inputs
      then (do
        input ← at (lookup start.action_input (contract act).inputs)
        ok (record a {
          inputs =
              insert start.action_input (stricter input (put_at blank a.inputs start.action_input))
                a.inputs;
        }))
      else if is_empty start.action_input
      then ok a
      else (do
        input ← at (lookup start.action_input (contract act).inputs)
        ok (define_input input a))

unfoldable pub take_inputs :
    (blank : PutDefinition) → Map ℤ Action → List InputBinding → ActionData → Outcome ActionData
unfolding take_input
take_inputs blank actions [] a = ok a
take_inputs blank actions (start ∷ starters) a =
    take_input blank actions start a >>= (λ taken. take_inputs blank actions starters taken)

unfoldable pub take_output : Map ℤ Action → OutputBinding → ActionData → Outcome ActionData
unfolding contract define_output stricter
take_output actions ender a = do
  act ← at (lookup ender.from_action_id actions)
  output ← at (lookup ender.from_action_output (contract act).outputs)
  ok (elim (lookup ender.from_action_output a.outputs) [
    | none ↦ define_output output a
    | some ours ↦ record a {
      outputs = insert ender.from_action_output (stricter output ours) a.outputs;
    }
  ])

unfoldable pub take_outputs : Map ℤ Action → List OutputBinding → ActionData → Outcome ActionData
unfolding take_output
take_outputs actions [] a = ok a
take_outputs actions (ender ∷ enders) a =
    take_output actions ender a >>= (λ taken. take_outputs actions enders taken)

-- An exposed property is copied from the set of the first kind that has the key.
unfoldable pub take_property : PropertySet → String → PropertySet → PropertySet
unfolding get_bool_sproperty set_bool_sproperty get_double_sproperty set_double_sproperty
    get_string_sproperty set_string_sproperty get_uint_sproperty set_uint_sproperty
    get_custom_sproperty set_custom_sproperty
take_property from key s =
    if has key from.bool_values
    then set_bool_sproperty s (get_bool_sproperty from key)
    else if has key from.double_values
    then set_double_sproperty s (get_double_sproperty from key)
    else if has key from.string_values
    then set_string_sproperty s (get_string_sproperty from key)
    else if has key from.uint_values
    then set_uint_sproperty s (get_uint_sproperty from key)
    else if has key from.custom_values
    then set_custom_sproperty s (get_custom_sproperty from key)
    else s

unfoldable pub take_properties : PropertySet → Map String String → PropertySet → PropertySet
unfolding take_property
take_properties from [] s = s
take_properties from ((alias, key) ∷ keys) s = take_properties from keys (take_property from key s)

-- `actions[aid]` is null for an action that the machine does not have.
unfoldable pub take_exposed :
    Map ℤ Action → Map ℤ (Map String String) → PropertySet → Outcome PropertySet
unfolding take_properties
take_exposed actions [] s = ok s
take_exposed actions ((id, keys) ∷ exposed) s = do
  act ← deref (lookup id actions)
  take_exposed actions exposed (take_properties act.fields.properties keys s)

-- The contract of the workflow becomes the contract of the action.
unfoldable pub take_contract :
    (blank : PutDefinition) → StateMachine → ActionData → Outcome ActionData
unfolding take_inputs take_outputs take_exposed clear_inputs clear_outputs get_enders
take_contract blank m a = do
  with_inputs ← take_inputs blank m.actions m.starters (clear_outputs (clear_inputs a))
  with_outputs ← take_outputs m.actions (get_enders m) with_inputs
  properties ← take_exposed m.actions m.exposed_properties a.properties
  ok (record with_outputs { properties = properties })

-- `boolProperty` and `stringProperty` with or without a session.
unfoldable pub read_bool : ActionData → Option Session → String → Outcome (Option Session × Bool)
unfolding bool_property has_property get_bool_property
read_bool a none key = ok (
  none,
  if has_property a.properties key then (get_bool_property a.properties key false).0 else false,
)
read_bool a (some session) key = bool_property a session key false >>= (λ r. ok (some r.0, r.1))

unfoldable pub read_string :
    ActionData → Option Session → String → Outcome (Option Session × String)
unfolding string_property has_property get_string_property
read_string a none key = ok (
  none,
  if has_property a.properties key then (get_string_property a.properties key "").0 else "",
)
read_string a (some session) key = string_property a session key "" >>= (λ r. ok (some r.0, r.1))

-- The names that the bypass of the action in the session remembers.
unfoldable pub remember :
    ActionData → (workflow controller : String) → Option Session → Option Session
unfolding get_bypass set_string_property
remember a workflow controller none = none
remember a workflow controller (some session) =
    let (session', bypass) = get_bypass a.action_id session in
    let first : PropertySet = (set_string_property bypass "__local_workflow" workflow).0 in
    let second : PropertySet = (set_string_property first "__local_controller" controller).0 in
    some (record session' { action_bypasses = insert a.action_id second session'.action_bypasses })

abbrev pub remembers : PropertySet → (workflow controller : String) → Bool
remembers bypass workflow controller =
    ◌==◌ {K = String} (get_string_property bypass "__local_workflow" "").0 workflow
    && ◌==◌ {K = String} (get_string_property bypass "__local_controller" "").0 controller

-- Whether the action is still prepared for these names.
unfoldable pub still_prepared :
    ExecuteWorkflow
    → (workflow controller : String) → Option Session
    → Outcome (Option Session × Bool)
unfolding bool_property get_bypass get_string_property
still_prepared e workflow controller none = ok (none, e.prepared)
still_prepared e workflow controller (some session) =
    if e.prepared
    then (do
      dynamic ← bool_property e.fields session "dynamic" false
      ok (
        some dynamic.0,
        if dynamic.1
            then remembers (get_bypass e.fields.action_id dynamic.0).1 workflow controller
            else true,
      ))
    else ok (some session, false)

pub record Prepared : Type 0 where
  pub known : Bool
  pub action : ExecuteWorkflow
  pub session : Option Session

-- The fingerprint of a null session follows no pointer.
abbrev pub log_session : ActionData → Option Session → Outcome (Option Session)
log_session a none = ok none
log_session a (some session) = fingerprint a (some session)

-- `prepare`: false where the controller or the workflow is unknown.
unfoldable pub prepare :
    (blank : PutDefinition)
    → Map String (Map String Workflow)
    → ExecuteWorkflow
    → Option Session
    → Outcome Prepared
unfolding read_string still_prepared take_contract remember
prepare blank controllers e session = do
  controller ← read_string e.fields session "controller"
  workflow ← read_string e.fields controller.0 "workflow"
  still ← still_prepared e workflow.1 controller.1 workflow.0
  if still.1
      then ok (record { known = true; action = record e { prepared = true }; session = still.0 })
      else log_session e.fields still.0 >>= λ logged. elim (lookup controller.1 controllers) [
        | none ↦
            ok (record { known = false; action = record e { prepared = false }; session = logged })
        | some workflows ↦ elim (lookup workflow.1 workflows) [
          | none ↦
              ok
                (record { known = false; action = record e { prepared = false }; session = logged })
          | some w ↦ take_contract blank w.machine e.fields >>= (λ taken. ok (record {
            known = true;
            action = record { fields = taken; prepared = true };
            session = remember e.fields workflow.1 controller.1 logged;
          }))
        ]
      ]

abbrev pub unknown_workflow : ErrorReport → ErrorReport
unknown_workflow er =
    set_error er "execute.unknown.workflow"
      "Can't execute this action, as requested workflow to execute is unknown"

-- `checkInputs`: a dynamic action is prepared each time.
unfoldable pub check_inputs_execute :
    (blank : PutDefinition)
    → Map String (Map String Workflow)
    → ExecuteWorkflow
    → Session
    → ErrorReport
    → Outcome (Prepared × Bool × ErrorReport)
unfolding bool_property prepare check_inputs set_error
check_inputs_execute blank controllers e session er = do
  dynamic ← bool_property e.fields session "dynamic" false
  ready ←
      if dynamic.1 || not e.prepared
      then prepare blank controllers e (some dynamic.0)
      else ok (record { known = true; action = e; session = some dynamic.0 })
  if ready.known
      then (do
        session' ← deref ready.session
        checked ← check_inputs ready.action.fields session' er
        ok (ready, checked.0, checked.1))
      else ok (ready, false, unknown_workflow er)

-- `expectInput` and `expectOutput`, without a session: a dynamic action expects everything.
unfoldable pub expect_execute :
    (expect : ActionData → String → ErrorReport)
    → (blank : PutDefinition) → Map String (Map String Workflow)
    → ExecuteWorkflow
    → String
    → Outcome (ExecuteWorkflow × ErrorReport)
unfolding prepare read_bool empty_report set_error
expect_execute expect blank controllers e key = do
  ready ←
      if e.prepared
      then ok (record { known = true; action = e; session = none })
      else prepare blank controllers e none
  if ready.known
      then (do
        dynamic ← read_bool ready.action.fields none "dynamic"
        ok (ready.action, if dynamic.1 then empty_report else expect ready.action.fields key))
      else ok (ready.action, unknown_workflow empty_report)

unfoldable pub expect_input_execute :
    (blank : PutDefinition)
    → Map String (Map String Workflow)
    → ExecuteWorkflow
    → String
    → Outcome (ExecuteWorkflow × ErrorReport)
unfolding expect_execute expect_input
expect_input_execute = expect_execute expect_input

unfoldable pub expect_output_execute :
    (blank : PutDefinition)
    → Map String (Map String Workflow)
    → ExecuteWorkflow
    → String
    → Outcome (ExecuteWorkflow × ErrorReport)
unfolding expect_execute expect_output
expect_output_execute = expect_execute expect_output
