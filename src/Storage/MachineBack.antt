-- ===== src/Storage/MachineBack.antt =====
-- What a saved state machine is loaded as: core/action.cpp and core/state_machine.cpp, with
-- tools/action_factory.cpp.
use libworkflow.Prelude.{
  ℕ, String, ◌≡◌, refl, ap, ◌∙◌, true, false, Option, none, some, List, [], ◌∷◌, ◌++◌,
  if◌then◌else◌, Bool,
}
use libworkflow.Prelude.Int.{ℤ}
use libworkflow.Prelude.Key.{string_key, int_key}
use libworkflow.Prelude.Map.{Map, lookup}
use libworkflow.Prelude.Outcome.{Outcome, ok, ◌>>=◌}
use libworkflow.Core.Bindings.{OutputBinding}
use libworkflow.Core.Action.Contract.{new_action}
use libworkflow.Core.Action.Wrapper.{Action, is_wrapped}
use libworkflow.Core.StateMachine.Layout.{StateMachine, list_at, add_action}
use libworkflow.Storage.Tree.{
  PropertyTree, PropertyTreeLaws, IsInt32, get_opt, put_last, add_last, text_found, child_found,
}
use libworkflow.Storage.Keys.{to_string, read_int, read_int-to_string}
use libworkflow.Storage.Entries.{plain_ids, entries, save_entries, children-save_entries}
use libworkflow.Storage.Contexts.{ContextFactory}
use libworkflow.Storage.Properties.{save_set}
use libworkflow.Storage.PropertiesBack.{
  InOrder, SetStorable, kept_set, overlay_set, children-save_set, load_set-fields,
}
use libworkflow.Storage.Machine.{
  ActionFactory, create_action, own_fields, save_put, save_list, values_of, save_data, save_action,
  save_input, save_machine, load_action, load_outputs, load_actions, load_exposed, load_machine,
}
use libworkflow.Storage.ListsBack.{
  InputInRange, OutputInRange, Each, Distinct, EachValue, bindings_tree, children-save_list,
  load_outputs-save,
}
use libworkflow.Storage.ExposedBack.{aliases_tree, load_inputs-save}

-- The action that a stored action is read as, from the one that the builder makes.
unfoldable pub restored : Action → Action → Action
unfolding own_fields overlay_set kept_set
restored made act =
    let a = own_fields act in
    record made {
      fields = record made.fields {
        name = a.name;
        action_id = a.action_id;
        properties = overlay_set made.fields.properties (kept_set a.properties);
      };
    }

-- `addAction` of each stored action that a builder makes, with its bindings.
unfoldable pub replay :
    ActionFactory → Map ℤ (List OutputBinding) → Map ℤ Action → StateMachine → StateMachine
unfolding create_action restored add_action
replay actions outputs [] m = m
replay actions outputs ((id, act) ∷ rest) m = elim (create_action actions act.fields.name) [
  | none ↦ replay actions outputs rest m
  | some made ↦
      replay actions outputs rest (add_action id (restored made act) (list_at id outputs) m)
]

pub record ActionStorable (typed : String → Bool) (f : ContextFactory) (fuel : ℕ) (act : Action)
    : Type 0 where
  pub action_id : IsInt32 (own_fields act).action_id
  pub properties : SetStorable typed f fuel (own_fields act).properties

-- What is stored is in range, and the maps are maps.
pub record MachineStorable (typed : String → Bool) (f : ContextFactory) (fuel : ℕ)
    (m : StateMachine) : Type 0 where
  pub actions : EachValue (ActionStorable typed f fuel) m.actions
  pub actions_once : Distinct m.actions
  pub outputs : EachValue (Each OutputInRange) m.outputs
  pub outputs_once : Distinct m.outputs
  pub starters : Each InputInRange m.starters
  pub exposed : EachValue InOrder m.exposed_properties
  pub exposed_once : Distinct m.exposed_properties

own_name : (act : Action) → (own_fields act).name ≡ act.fields.name
unfolding own_fields new_action
own_name act =
    elim (is_wrapped act.wrapper)
      as (λ c. (if c then new_action act.fields.name else act.fields).name ≡ act.fields.name) [
        | true ↦ refl
        | false ↦ refl
      ]

module _ {T : Type 0} {p : PropertyTree T} (laws : PropertyTreeLaws p) (own : String → T → T)
    (typed : String → Bool)
    (writes : (type : String)
      → typed type ≡ true
      → p.get_optional "type" (own type p.empty) ≡ some type)
    (f : ContextFactory) (fuel : ℕ) (actions : ActionFactory) where
  abbrev action_tree : Action → T
  action_tree act = save_action p own act p.empty

  children-save_action :
      (act : Action)
      → p.children (action_tree act)
        ≡ ("name", p.leaf (own_fields act).name)
          ∷ ("action_id", p.leaf (p.int_text (own_fields act).action_id))
          ∷ ("properties", save_set p own (own_fields act).properties p.empty)
          ∷ ("inputs", save_list p (save_put p) (values_of p (own_fields act).inputs) p.empty)
          ∷ ("outputs", save_list p (save_put p) (values_of p (own_fields act).outputs) p.empty)
          ∷ []
  unfolding save_action save_data lookup
  children-save_action act =
      add_last laws _
        (add_last laws _
          (add_last laws _
            (put_last laws _ (put_last laws _ laws.children_empty refl refl) refl refl) refl)
          refl)
        refl

  load_action-save :
      (act made : Action)
      → ActionStorable typed f fuel act
      → load_action p f fuel (action_tree act) made ≡ ok (restored made act)
  unfolding load_action restored lookup
  load_action-save act made storable =
      let holds = children-save_action act in
      rw (
        text_found laws {k = "name"} holds refl refl,
        text_found laws {k = "action_id"} holds refl refl,
        child_found laws {k = "properties"} holds refl refl,
        laws.int (own_fields act).action_id storable.action_id,
        load_set-fields laws own typed writes f fuel (own_fields act).properties
            made.fields.properties storable.properties
            (children-save_set laws own typed writes f fuel (own_fields act).properties
              laws.children_empty),
      )

  load_actions-save :
      (outs outputs : Map ℤ (List OutputBinding)) (n : Map ℤ Action) (m : StateMachine)
      → ((j : ℤ) → list_at j outs ≡ list_at j outputs)
      → EachValue (ActionStorable typed f fuel) n
      → load_actions p f fuel actions outs (entries to_string action_tree n) m
        ≡ ok (replay actions outputs n m)
  unfolding load_actions replay lookup
  load_actions-save outs outputs [] m agree storable = refl
  load_actions-save outs outputs ((id, act) ∷ n) m agree storable =
      let named : get_opt "" (p.get_optional "name" (action_tree act)) ≡ act.fields.name =
        ap (get_opt "") (text_found laws {k = "name"} (children-save_action act) refl refl)
        ∙ own_name act in
      let step : Option Action → Outcome StateMachine = λ c. elim c [
        | none ↦ load_actions p f fuel actions outs (entries to_string action_tree n) m
        | some made ↦ load_action p f fuel (action_tree act) made >>= (λ loaded.
            load_actions p f fuel actions outs (entries to_string action_tree n) (
              add_action (read_int (to_string id)) loaded (list_at (read_int (to_string id)) outs)
                m))
      ] in
      ap (λ name. step (create_action actions name)) named
      ∙ elim (create_action actions act.fields.name)
          as (λ c.
            step c
            ≡ ok (elim c [
              | none ↦ replay actions outputs n m
              | some made ↦
                  replay actions outputs n
                    (add_action id (restored made act) (list_at id outputs) m)
            ])) [
              | none ↦ load_actions-save outs outputs n m agree storable.1
              | some made ↦
                  rw (load_action-save act made storable.0, read_int-to_string id, agree id)
                    (load_actions-save outs outputs n
                      (add_action id (restored made act) (list_at id outputs) m) agree storable.1)
            ]

  -- A workflow puts its name and its timeout first.
  abbrev pub workflow_fields : (name timeout : T) → StateMachine → List (String × T)
  workflow_fields name timeout m =
      ("name", name)
      ∷ ("timeout", timeout)
      ∷ ("actions", save_entries p to_string action_tree m.actions p.empty)
      ∷ ("outputs", save_entries p to_string (bindings_tree laws) m.outputs p.empty)
      ∷ ("inputs", save_list p (save_input p) m.starters p.empty)
      ∷ ("exposed", save_entries p to_string (aliases_tree laws) m.exposed_properties p.empty)
      ∷ []

  pub children-save_machine :
      (m : StateMachine) {name timeout root : T}
      → p.children root ≡ ("name", name) ∷ ("timeout", timeout) ∷ []
      → p.children (save_machine p own m root) ≡ workflow_fields name timeout m
  unfolding save_machine
  children-save_machine m holds =
      add_last laws _ (add_last laws _ (add_last laws _ (add_last laws _ holds refl) refl) refl)
        refl

  children_saved :
      {V : Type 0} (tree : V → T) (n : Map ℤ V)
      → p.children (save_entries p to_string tree n p.empty) ≡ entries to_string tree n
  children_saved tree n =
      children-save_entries laws to_string tree n p.empty (plain_ids n)
      ∙ ap (λ l. l ++ entries to_string tree n) laws.children_empty

  -- The exposed properties that are loaded.
  abbrev pub exposed_back : StateMachine → Map ℤ (Map String String)
  exposed_back m = load_exposed p (entries to_string (aliases_tree laws) m.exposed_properties) []

  pub load_machine-fields :
      (m start : StateMachine) {name timeout saved : T}
      → MachineStorable typed f fuel m
      → p.children saved ≡ workflow_fields name timeout m
      → load_machine p f fuel actions saved start
        ≡ ok (
            let acted = replay actions m.outputs m.actions start in
            record acted {
              starters = acted.starters ++ m.starters;
              exposed_properties = exposed_back m;
            })
  unfolding load_machine lookup
  load_machine-fields m start storable holds = rw (
    child_found laws {k = "actions"} holds refl refl,
    child_found laws {k = "outputs"} holds refl refl,
    child_found laws {k = "inputs"} holds refl refl,
    child_found laws {k = "exposed"} holds refl refl,
    children_saved action_tree m.actions,
    children_saved (bindings_tree laws) m.outputs,
    children_saved (aliases_tree laws) m.exposed_properties,
    load_actions-save (load_outputs p (entries to_string (bindings_tree laws) m.outputs) [])
        m.outputs m.actions start
        (λ j. load_outputs-save laws j m.outputs [] storable.outputs_once storable.outputs)
        storable.actions,
    children-save_list laws (save_input p) m.starters p.empty,
    laws.children_empty,
    load_inputs-save laws m.starters (replay actions m.outputs m.actions start) storable.starters,
  )
