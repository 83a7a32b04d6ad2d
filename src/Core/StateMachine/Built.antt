-- ===== src/Core/StateMachine/Built.antt =====
-- The machines that `addAction` builds out of `init` (core/state_machine.cpp).
use libworkflow.Prelude.{
  ◌≡◌, refl, Bool, ◌||◌, ◌∙◌, true, false, none, some, List, [], ◌∷◌, map, if◌then◌else◌, String,
}
use libworkflow.Prelude.Int.{ℤ, eqb_ℤ}
use libworkflow.Prelude.Key.{int_key, string_key, ==_refl}
use libworkflow.Prelude.Map.{Map, lookup, insert, lookup-insert}
use libworkflow.Core.Bindings.{InputBinding, OutputBinding, set_from_action_id}
use libworkflow.Core.Step
use libworkflow.Core.Action.Contract.{new_action}
use libworkflow.Core.Action.Wrapper.{plain_action, default_methods, Action, WrapperKind}
use libworkflow.Core.StateMachine.Layout.{
  StateMachine, empty_machine, wrapper_for, expose_as, expose, expose_marked, expose_properties,
  build_inputs, wrapped, install, add_action, add_input, init, next_action, link,
}
use libworkflow.Core.StateMachine.Sources.{
  AllFromKnown, SourcesKnown, grown-AllFromKnown, own-FromKnown, insert-AllFromKnown,
  build_inputs-SourcesKnown,
}
use libworkflow.Tools.PropertySet.Typed.{PropertySet, Property}

-- `init` runs first; then actions are added, under any identifier that `kept` does not name, and
-- inputs and properties.
pub data BuiltKeeping (kept : ℤ → Bool) : StateMachine → Type 0 where
  started : BuiltKeeping kept (init empty_machine)
  with_action :
      {m : StateMachine} (id : ℤ) (act : Action) (bs : List OutputBinding)
      → kept id ≡ false
      → BuiltKeeping kept m
      → BuiltKeeping kept (add_action id act bs m)
  with_input :
      {m : StateMachine} (b : InputBinding)
      → BuiltKeeping kept m
      → BuiltKeeping kept (add_input b m)
  with_exposed :
      {m : StateMachine} (id : ℤ) (key alias : String)
      → BuiltKeeping kept m
      → BuiltKeeping kept (expose_as id key alias m)

-- Any identifier at all.
abbrev pub Built : StateMachine → Type 0
Built = BuiltKeeping (λ id. false)

-- No identifier of the error flow, and not that of the interrupt flow.
abbrev pub in_error_flow : ℤ → Bool
in_error_flow id = eqb_ℤ id Step.error || eqb_ℤ id Step.cleanup

abbrev pub is_interrupt : ℤ → Bool
is_interrupt id = eqb_ℤ id Step.interrupt

-- What exposing properties leaves alone.
pub record Same (m m' : StateMachine) : Type 0 where
  pub same_actions : m'.actions ≡ m.actions
  pub same_outputs : m'.outputs ≡ m.outputs
  pub same_inputs_map : m'.inputs_map ≡ m.inputs_map
  pub same_starters : m'.starters ≡ m.starters

expose_marked-Same :
    {T : Type 0} (id : ℤ) (ps : Map String (Property T)) (m : StateMachine)
    → Same m (expose_marked id ps m)
unfolding expose_marked expose expose_as
expose_marked-Same id [] m = record {
  same_actions = refl;
  same_outputs = refl;
  same_inputs_map = refl;
  same_starters = refl;
}
expose_marked-Same id ((key, p) ∷ ps) m =
    elim p.exposed as (λ c. Same m (expose_marked id ps (if c then expose id key m else m))) [
      | true ↦
          let s = expose_marked-Same id ps (expose id key m) in
          record {
            same_actions = s.same_actions;
            same_outputs = s.same_outputs;
            same_inputs_map = s.same_inputs_map;
            same_starters = s.same_starters;
          }
      | false ↦ expose_marked-Same id ps m
    ]

Same-trans : {l m n : StateMachine} → Same l m → Same m n → Same l n
Same-trans s t = record {
  same_actions = t.same_actions ∙ s.same_actions;
  same_outputs = t.same_outputs ∙ s.same_outputs;
  same_inputs_map = t.same_inputs_map ∙ s.same_inputs_map;
  same_starters = t.same_starters ∙ s.same_starters;
}

pub expose_properties-Same :
    (id : ℤ) (s : PropertySet) (m : StateMachine) → Same m (expose_properties id s m)
unfolding expose_properties
expose_properties-Same id s m = Same-trans (expose_marked-Same id s.bool_values m) (
    Same-trans (expose_marked-Same id s.double_values _) (
      Same-trans (expose_marked-Same id s.uint_values _) (
        Same-trans (expose_marked-Same id s.string_values _)
          (expose_marked-Same id s.custom_values _))))

-- A machine in which every binding and every entry of `inputs_map` comes from one of its actions.
pub record WellFed (m : StateMachine) : Type 0 where
  pub bound : AllFromKnown m.actions m.outputs
  pub fed : SourcesKnown m.actions m.inputs_map

-- `addAction` before it exposes the properties of the action.
abbrev pub bound_machine :
    WrapperKind → ℤ → Action → List OutputBinding → StateMachine → StateMachine
bound_machine w id act bs m =
    let outputs' = insert id (map (set_from_action_id id) bs) m.outputs in
    record m {
      actions = insert id (wrapped w id act) m.actions;
      outputs = outputs';
      inputs_map = build_inputs outputs' [];
    }

install-WellFed :
    (w : WrapperKind) (id : ℤ) (act : Action) (bs : List OutputBinding) (m : StateMachine)
    → WellFed m
    → WellFed (install w id act bs m)
unfolding install
install-WellFed w id act bs m h =
    let outputs' = insert id (map (set_from_action_id id) bs) m.outputs in
    let actions' = insert id (wrapped w id act) m.actions in
    let s = expose_properties-Same id act.fields.properties (bound_machine w id act bs m) in
    let b =
      insert-AllFromKnown actions' id (map (set_from_action_id id) bs) m.outputs
        (own-FromKnown actions' id bs
          (rw (lookup-insert id id (wrapped w id act) m.actions, ==_refl {K = ℤ} id)))
        (grown-AllFromKnown m.actions id (wrapped w id act) m.outputs h.bound) in
    record {
      bound = rw (s.same_actions, s.same_outputs) b;
      fed =
          rw (s.same_actions, s.same_inputs_map)
            (build_inputs-SourcesKnown actions' outputs' [] b (λ to. unfold lookup in tt));
    }

add_action-WellFed :
    (id : ℤ) (act : Action) (bs : List OutputBinding) (m : StateMachine)
    → WellFed m
    → WellFed (add_action id act bs m)
unfolding add_action
add_action-WellFed id act bs m h =
    elim (wrapper_for id) as (λ o. WellFed (elim o [ none ↦ m | some w ↦ install w id act bs m ])) [
      | none ↦ h
      | some w ↦ install-WellFed w id act bs m h
    ]

empty-WellFed : WellFed empty_machine
unfolding empty_machine
empty-WellFed = record { bound = tt; fed = λ to. unfold lookup in tt }

init-WellFed : WellFed (init empty_machine)
unfolding init
init-WellFed =
    let one =
      add_action-WellFed Step.initialisation (plain_action (new_action "Action") default_methods)
        (link Step.initialisation Step.finish ∷ []) empty_machine empty-WellFed in
    let two = add_action-WellFed Step.error next_action (link Step.error Step.cleanup ∷ []) _ one in
    let three =
      add_action-WellFed Step.finish next_action (link Step.finish Step.cleanup ∷ []) _ two in
    add_action-WellFed Step.cleanup next_action (link Step.cleanup Step.die ∷ []) _ three

pub Built-WellFed : {kept : ℤ → Bool} {m : StateMachine} → BuiltKeeping kept m → WellFed m
unfolding add_input expose_as
Built-WellFed started = init-WellFed
Built-WellFed (with_action id act bs other b) = add_action-WellFed id act bs _ (Built-WellFed b)
Built-WellFed (with_input b h) = let w = Built-WellFed h in record { bound = w.bound; fed = w.fed }
Built-WellFed (with_exposed id key alias h) =
    let w = Built-WellFed h in record { bound = w.bound; fed = w.fed }
