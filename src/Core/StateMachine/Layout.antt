-- ===== src/Core/StateMachine/Layout.antt =====
-- What a state machine is built from: its actions, the bindings between them, what it exposes.
use libworkflow.Prelude.{String, Option, none, some, List, [], ◌∷◌, ◌++◌, map, if◌then◌else◌}
use libworkflow.Prelude.Int.{ℤ, pos, eqb_ℤ, ltb_ℤ}
use libworkflow.Prelude.Key.{int_key, string_key}
use libworkflow.Prelude.Map.{Map, lookup, insert, erase}
use libworkflow.Prelude.IdSet
use libworkflow.Core.Bindings.{InputBinding, OutputBinding, set_from_action_id}
use libworkflow.Core.Step
use libworkflow.Core.Action.Contract.{set_action_id, set_state_machine, new_action}
use libworkflow.Core.Action.Wrapper.{
  Action, WrapperKind, unwrapped, interrupt_wrapper, error_wrapper, finish_wrapper, cleanup_wrapper,
  plain_action, next_methods, default_methods,
}
use libworkflow.Tools.PropertySet.Typed.{PropertySet, Property}

pub record StateMachine : Type 0 where
  pub actions : Map ℤ Action
  pub outputs : Map ℤ (List OutputBinding)
  pub inputs_map : Map ℤ (List ℤ)
  pub exposed_properties : Map ℤ (Map String String)
  pub starters : List InputBinding

unfoldable pub empty_machine : StateMachine
empty_machine = record {
  actions = [];
  outputs = [];
  inputs_map = [];
  exposed_properties = [];
  starters = [];
}

-- `map[id]` on a map of lists: the list, empty if there is none.
abbrev pub list_at {ℓ} : {A : Type ℓ} → ℤ → Map ℤ (List A) → List A
list_at id m = elim (lookup id m) [ none ↦ [] | some l ↦ l ]

-- Which wrapper `addAction` puts on; `none` refuses the identifier.
unfoldable pub wrapper_for : ℤ → Option WrapperKind
wrapper_for id =
    if eqb_ℤ id Step.interrupt
    then some interrupt_wrapper
    else if eqb_ℤ id Step.error
    then some error_wrapper
    else if eqb_ℤ id Step.finish
    then some finish_wrapper
    else if eqb_ℤ id Step.cleanup
    then some cleanup_wrapper
    else if ltb_ℤ id (pos 0)
    then none
    else some unwrapped

unfoldable pub expose_as : ℤ → (key alias : String) → StateMachine → StateMachine
expose_as id key alias m = record m {
  exposed_properties =
      insert id (insert alias key (list_at id m.exposed_properties)) m.exposed_properties;
}

unfoldable pub expose : ℤ → String → StateMachine → StateMachine
unfolding expose_as
expose id key m = expose_as id key key m

-- `unexpose(action)` and `unexpose(action, alias)`
unfoldable pub unexpose_all : ℤ → StateMachine → StateMachine
unexpose_all id m = record m { exposed_properties = erase id m.exposed_properties }

unfoldable pub unexpose : ℤ → String → StateMachine → StateMachine
unexpose id alias m = record m {
  exposed_properties =
      insert id (erase alias (list_at id m.exposed_properties)) m.exposed_properties;
}

-- The loop over the properties of one kind.
unfoldable pub expose_marked :
    {T : Type 0} → ℤ → Map String (Property T) → StateMachine → StateMachine
unfolding expose
expose_marked id [] m = m
expose_marked id ((key, p) ∷ ps) m = expose_marked id ps (if p.exposed then expose id key m else m)

unfoldable pub expose_properties : ℤ → PropertySet → StateMachine → StateMachine
unfolding expose_marked
expose_properties id s m = expose_marked id s.custom_values (
    expose_marked id s.string_values (
      expose_marked id s.uint_values
        (expose_marked id s.double_values (expose_marked id s.bool_values m))))

-- `inputs_map[to].insert(from)` for the bindings of one action, and for all of them.
unfoldable pub note_inputs : List OutputBinding → Map ℤ (List ℤ) → Map ℤ (List ℤ)
unfolding IdSet.insert
note_inputs [] m = m
note_inputs (b ∷ bs) m =
    note_inputs bs
      (insert b.to_action_id (IdSet.insert b.from_action_id (list_at b.to_action_id m)) m)

unfoldable pub build_inputs : Map ℤ (List OutputBinding) → Map ℤ (List ℤ) → Map ℤ (List ℤ)
unfolding note_inputs
build_inputs [] m = m
build_inputs ((id, bs) ∷ rest) m = build_inputs rest (note_inputs bs m)

-- `setStateMachine` and `setActionId` are called on the wrapper, if there is one: it forwards the
-- second and not the first, so the action inside keeps the pointer that it had.
abbrev pub wrapped : WrapperKind → ℤ → Action → Action
wrapped unwrapped id act = record act { fields = set_action_id id (set_state_machine act.fields) }
wrapped w id act = record act { wrapper = w; fields = set_action_id id act.fields }

-- `addAction` once the identifier is accepted.
unfoldable pub install : WrapperKind → ℤ → Action → List OutputBinding → StateMachine → StateMachine
unfolding set_action_id set_state_machine set_from_action_id build_inputs expose_properties
install w id act bindings m =
    let outputs' = insert id (map (set_from_action_id id) bindings) m.outputs in
    expose_properties id act.fields.properties (record m {
      actions = insert id (wrapped w id act) m.actions;
      outputs = outputs';
      inputs_map = build_inputs outputs' [];
    })

-- `addAction`: an identifier that is refused leaves the machine as it was.
unfoldable pub add_action : ℤ → Action → List OutputBinding → StateMachine → StateMachine
unfolding wrapper_for install
add_action id act bindings m = elim (wrapper_for id) [
  | none ↦ m
  | some w ↦ install w id act bindings m
]

unfoldable pub add_input : InputBinding → StateMachine → StateMachine
add_input b m = record m { starters = m.starters ++ b ∷ [] }

-- The bindings into `Finish`, in the order of the actions they come from.
abbrev to_finish : List OutputBinding → List OutputBinding
to_finish [] = []
to_finish (b ∷ bs) = if eqb_ℤ b.to_action_id Step.finish then b ∷ to_finish bs else to_finish bs

unfoldable pub enders_of : Map ℤ (List OutputBinding) → List OutputBinding
enders_of [] = []
enders_of ((id, bs) ∷ rest) = to_finish bs ++ enders_of rest

unfoldable pub get_enders : StateMachine → List OutputBinding
unfolding enders_of
get_enders m = enders_of m.outputs

unfoldable pub get_expected_output : StateMachine → List String
unfolding enders_of
get_expected_output m = map (λ b. b.to_action_input) (enders_of m.outputs)

abbrev pub link : ℤ → ℤ → OutputBinding
link from to = record {
  from_action_id = from;
  from_action_output = "";
  to_action_id = to;
  to_action_input = "";
}

unfoldable pub next_action : Action
unfolding plain_action next_methods new_action
next_action = plain_action (new_action "Next") next_methods

-- `init`: the action 0 of every new machine fails when it is run, and is meant to be replaced.
unfoldable pub init : StateMachine → StateMachine
unfolding add_action next_action default_methods
init m = add_action Step.cleanup next_action (link Step.cleanup Step.die ∷ []) (
    add_action Step.finish next_action (link Step.finish Step.cleanup ∷ []) (
      add_action Step.error next_action (link Step.error Step.cleanup ∷ []) (
        add_action Step.initialisation (plain_action (new_action "Action") default_methods)
          (link Step.initialisation Step.finish ∷ []) m)))
