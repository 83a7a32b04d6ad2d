-- ===== src/Storage/Machine.antt =====
-- core/bindings.cpp, core/put_definition.cpp, core/action.cpp, core/state_machine.cpp and
-- core/workflow.cpp: `save` and `load`; and tools/action_factory.cpp, which makes the action that a
-- stored one is loaded into. A number that no constructor sets is what the memory held, here 0.
use libworkflow.Prelude.{
  ℕ, String, Option, none, some, List, [], ◌∷◌, ◌++◌, is_empty, if◌then◌else◌,
}
use libworkflow.Prelude.Int.{ℤ, pos}
use libworkflow.Prelude.Key.{string_key, int_key}
use libworkflow.Prelude.Map.{Map, lookup, insert}
use libworkflow.Prelude.Outcome.{Outcome, ok, ◌>>=◌}
use libworkflow.Core.Context.{get_type}
use libworkflow.Core.Bindings.{InputBinding, OutputBinding}
use libworkflow.Core.Action.Contract.{ActionData, PutDefinition, new_action}
use libworkflow.Core.Action.Wrapper.{Action, is_wrapped}
use libworkflow.Core.StateMachine.Layout.{StateMachine, list_at, add_action, add_input}
use libworkflow.Storage.Tree.{PropertyTree, get_opt, bind}
use libworkflow.Storage.Keys.{to_string, read_int}
use libworkflow.Storage.Entries.{save_entries}
use libworkflow.Storage.Contexts.{ContextFactory}
use libworkflow.Storage.Properties.{save_set, load_set}
use libworkflow.Storage.Reports.{load_child}

-- The builders of actions under the names of what they make.
abbrev pub ActionFactory : Type 0
ActionFactory = Map String Action

unfoldable pub register_action : Option Action → ActionFactory → ActionFactory
register_action none f = f
register_action (some act) f = if is_empty act.fields.name then f else insert act.fields.name act f

unfoldable pub create_action : ActionFactory → String → Option Action
create_action f name = lookup name f

-- `Action::save` reads the members of the object it is called on. A wrapper is an action of its
-- own: made with the name of what it wraps, it has an empty property set and no inputs or outputs.
unfoldable pub own_fields : Action → ActionData
unfolding new_action
own_fields act = if is_wrapped act.wrapper then new_action act.fields.name else act.fields

-- `OutputBinding ob; InputBinding ib;`
abbrev pub new_output : OutputBinding
new_output = record {
  from_action_id = pos 0;
  from_action_output = "";
  to_action_id = pos 0;
  to_action_input = "";
}

abbrev pub new_input : InputBinding
new_input = record { workflow_input = ""; action_id = pos 0; action_input = "" }

module _ {T : Type 0} (p : PropertyTree T) where
  unfoldable pub save_input : InputBinding → T → T
  save_input b root =
      p.put "action_input" b.action_input
        (p.put "action_id" (p.int_text b.action_id) (p.put "workflow_input" b.workflow_input root))

  unfoldable pub load_input : T → InputBinding → InputBinding
  load_input root b = record {
    workflow_input = get_opt b.workflow_input (p.get_optional "workflow_input" root);
    action_id = get_opt b.action_id (bind (p.get_optional "action_id" root) p.int_of);
    action_input = get_opt b.action_input (p.get_optional "action_input" root);
  }

  unfoldable pub save_output : OutputBinding → T → T
  save_output b root = p.put "to_action_input" b.to_action_input (
      p.put "to_action_id" (p.int_text b.to_action_id) (
        p.put "from_action_output" b.from_action_output
          (p.put "from_action_id" (p.int_text b.from_action_id) root)))

  unfoldable pub load_output : T → OutputBinding → OutputBinding
  load_output root b = record {
    from_action_id =
        get_opt b.from_action_id (bind (p.get_optional "from_action_id" root) p.int_of);
    from_action_output = get_opt b.from_action_output (p.get_optional "from_action_output" root);
    to_action_id = get_opt b.to_action_id (bind (p.get_optional "to_action_id" root) p.int_of);
    to_action_input = get_opt b.to_action_input (p.get_optional "to_action_input" root);
  }

  unfoldable pub save_put : PutDefinition → T → T
  unfolding get_type
  save_put d root = p.put "allowSkip" (p.bool_text d.allow_skip) (
      p.put "ignoreEmpty" (p.bool_text d.ignore_empty) (
        p.put "mandatory" (p.bool_text d.mandatory) (
          p.put "type" (get_type d.checker.generate)
            (p.put "description" d.description (p.put "name" d.put_name root)))))

  -- A list of items without keys.
  unfoldable pub save_list : {A : Type 0} → (A → T → T) → List A → T → T
  save_list save [] t = t
  save_list save (a ∷ as') t = save_list save as' (p.push_back (save a p.empty) t)

  abbrev pub values_of : {A : Type 0} → Map String A → List A
  values_of [] = []
  values_of ((k, a) ∷ m) = a ∷ values_of m

  -- `put(alias, key)` for each exposed property of an action.
  unfoldable pub save_aliases : Map String String → T → T
  save_aliases [] t = t
  save_aliases ((alias, key) ∷ m) t = save_aliases m (p.put alias key t)

  module _ (own : String → T → T) where
    unfoldable pub save_data : ActionData → T → T
    unfolding save_set save_put save_list
    save_data a root = p.add_child "outputs" (save_list save_put (values_of a.outputs) p.empty) (
        p.add_child "inputs" (save_list save_put (values_of a.inputs) p.empty) (
          p.add_child "properties" (save_set p own a.properties p.empty)
            (p.put "action_id" (p.int_text a.action_id) (p.put "name" a.name root))))

    unfoldable pub save_action : Action → T → T
    unfolding save_data own_fields
    save_action act root = save_data (own_fields act) root

    unfoldable pub save_machine : StateMachine → T → T
    unfolding save_action save_entries save_list save_input save_output save_aliases
    save_machine m root =
        p.add_child "exposed"
          (save_entries p to_string (λ aliases. save_aliases aliases p.empty) m.exposed_properties
            p.empty)
          (p.add_child "inputs" (save_list save_input m.starters p.empty) (
            p.add_child "outputs"
              (save_entries p to_string (λ bs. save_list save_output bs p.empty) m.outputs p.empty)
              (p.add_child "actions"
                (save_entries p to_string (λ act. save_action act p.empty) m.actions p.empty)
                root)))

  -- `toutputs[cid].push_back(ob)` for each item of one child, and for each child.
  unfoldable pub load_bindings :
      ℤ → List (String × T) → Map ℤ (List OutputBinding) → Map ℤ (List OutputBinding)
  unfolding load_output
  load_bindings id [] m = m
  load_bindings id ((k, item) ∷ items) m =
      load_bindings id items (insert id (list_at id m ++ load_output item new_output ∷ []) m)

  unfoldable pub load_outputs :
      List (String × T) → Map ℤ (List OutputBinding) → Map ℤ (List OutputBinding)
  unfolding load_bindings read_int
  load_outputs [] m = m
  load_outputs ((k, items) ∷ rest) m =
      load_outputs rest (load_bindings (read_int k) (p.children items) m)

  unfoldable pub load_inputs : List (String × T) → StateMachine → StateMachine
  unfolding load_input add_input
  load_inputs [] m = m
  load_inputs ((k, item) ∷ items) m = load_inputs items (add_input (load_input item new_input) m)

  -- `exposed_properties[action_id][alias] = key` for each alias of one action, and for each action.
  unfoldable pub load_aliases :
      ℤ → List (String × T) → Map ℤ (Map String String) → Map ℤ (Map String String)
  load_aliases id [] m = m
  load_aliases id ((alias, key) ∷ items) m =
      load_aliases id items (insert id (insert alias (p.text key) (list_at id m)) m)

  unfoldable pub load_exposed :
      List (String × T) → Map ℤ (Map String String) → Map ℤ (Map String String)
  unfolding load_aliases read_int
  load_exposed [] m = m
  load_exposed ((k, items) ∷ rest) m =
      load_exposed rest (load_aliases (read_int k) (p.children items) m)

  abbrev pub children_of : Option T → List (String × T)
  children_of none = []
  children_of (some t) = p.children t

  abbrev pub expose_stored : Option T → StateMachine → StateMachine
  expose_stored none m = m
  expose_stored (some t) m = record m { exposed_properties = load_exposed (p.children t) [] }

  module _ (f : ContextFactory) (fuel : ℕ) where
    unfoldable pub load_action : T → Action → Outcome Action
    unfolding load_set
    load_action root act = do
      properties ←
          load_child (p.get_child_optional "properties" root) act.fields.properties
            (λ item. load_set p f fuel item act.fields.properties)
      ok (record act {
        fields = record act.fields {
          name = get_opt act.fields.name (p.get_optional "name" root);
          action_id =
              get_opt act.fields.action_id (bind (p.get_optional "action_id" root) p.int_of);
          properties = properties;
        };
      })

  module _ (f : ContextFactory) (fuel : ℕ) (actions : ActionFactory) where
    -- An action that no builder makes is passed over.
    unfoldable pub load_actions :
        Map ℤ (List OutputBinding) → List (String × T) → StateMachine → Outcome StateMachine
    unfolding create_action load_action add_action read_int
    load_actions outputs [] m = ok m
    load_actions outputs ((k, item) ∷ items) m =
        elim (create_action actions (get_opt "" (p.get_optional "name" item))) [
          | none ↦ load_actions outputs items m
          | some act ↦ load_action f fuel item act >>= (λ loaded.
              load_actions outputs items
                (add_action (read_int k) loaded (list_at (read_int k) outputs) m))
        ]

    unfoldable pub load_machine : T → StateMachine → Outcome StateMachine
    unfolding load_outputs load_actions load_inputs load_exposed
    load_machine root m = do
      acted ←
          load_actions (load_outputs (children_of (p.get_child_optional "outputs" root)) [])
            (children_of (p.get_child_optional "actions" root)) m
      ok (
          expose_stored (p.get_child_optional "exposed" root)
            (load_inputs (children_of (p.get_child_optional "inputs" root)) acted))
