-- ===== src/Storage/Workflow.antt =====
-- core/workflow.cpp: `save` and `load`. The timeout of a workflow, which only its timer reads, is a
-- value beside it.
use libworkflow.Prelude.{ℕ, String, ◌≡◌, refl, ap, some, ◌++◌, map, Bool, true}
use libworkflow.Prelude.Int.{ℤ}
use libworkflow.Prelude.Key.{string_key, int_key}
use libworkflow.Prelude.Map.{lookup}
use libworkflow.Prelude.Outcome.{Outcome, ok, ◌>>=◌}
use libworkflow.Core.Bindings.{set_from_action_id}
use libworkflow.Core.Action.Wrapper.{Action, WrapperKind}
use libworkflow.Core.StateMachine.Layout.{StateMachine, list_at, wrapper_for, wrapped}
use libworkflow.Core.Workflow.{Workflow}
use libworkflow.Tools.PropertySet.Typed.{Double}
use libworkflow.Storage.Tree.{
  PropertyTree, PropertyTreeLaws, IsFinite, get_opt, bind, put_last, text_found,
}
use libworkflow.Storage.Contexts.{ContextFactory}
use libworkflow.Storage.Machine.{ActionFactory, create_action, save_machine, load_machine}
use libworkflow.Storage.MachineBack.{
  MachineStorable, restored, replay, exposed_back, children-save_machine, load_machine-fields,
}
use libworkflow.Storage.ExposedBack.{load_exposed-save_new}
use libworkflow.Storage.Replayed.{Has, replay-Has, replay-starters}

module _ {T : Type 0} (p : PropertyTree T) where
  unfoldable pub save_workflow : (own : String → T → T) → Workflow → Double → T → T
  unfolding save_machine
  save_workflow own w timeout root =
      save_machine p own w.machine
        (p.put "timeout" (p.double_text timeout) (p.put "name" w.name root))

  unfoldable pub load_workflow :
      ContextFactory
      → (fuel : ℕ) → ActionFactory
      → T
      → Workflow
      → Double
      → Outcome (Workflow × Double)
  unfolding load_machine
  load_workflow f fuel actions root w timeout = do
    machine ← load_machine p f fuel actions root w.machine
    ok (
      record w { name = get_opt w.name (p.get_optional "name" root); machine = machine },
      get_opt timeout (bind (p.get_optional "timeout" root) p.double_of),
    )

-- The machine that a stored one is read as, over the one that was there.
pub record ReadBack (m start back : StateMachine) : Type 0 where
  pub starters : back.starters ≡ start.starters ++ m.starters
  pub exposed : (id : ℤ) → list_at id back.exposed_properties ≡ list_at id m.exposed_properties

module _ {T : Type 0} {p : PropertyTree T} (laws : PropertyTreeLaws p) (own : String → T → T)
    (typed : String → Bool)
    (writes : (type : String)
      → typed type ≡ true
      → p.get_optional "type" (own type p.empty) ≡ some type)
    (f : ContextFactory) (fuel : ℕ) (actions : ActionFactory) where
  -- A saved workflow, loaded into any other, gives its name and timeout, its starters after those
  -- that were there and its exposed properties; and an action that a builder makes, under an
  -- identifier that is accepted, is there again, with its bindings and its name, in the wrapper for
  -- its identifier, the properties that were saved stored over those of the builder. What is stored has to be in
  -- the ranges of the types, with names that are not empty and have no dots, and the context classes
  -- of the application that are in use write their type, which a property set does not.
  pub workflow-back :
      (w start : Workflow) (timeout before : Double) (id : ℤ) (act made : Action)
      {kind : WrapperKind}
      → IsFinite timeout
      → MachineStorable typed f fuel w.machine
      → lookup id w.machine.actions ≡ some act
      → create_action actions act.fields.name ≡ some made
      → wrapper_for id ≡ some kind
      → (back : StateMachine) × (load_workflow p f fuel actions
            (save_workflow p own w timeout p.empty)
            start
            before
          ≡ ok (record start { name = w.name; machine = back }, timeout))
        × ReadBack w.machine start.machine back
        × Has back id
            (wrapped kind id (restored made act))
            (map (set_from_action_id id) (list_at id w.machine.outputs))
  unfolding load_workflow save_workflow lookup
  workflow-back w start timeout before id act made {kind} finite storable there builds accepted =
      let holds = children-save_machine laws own typed writes f fuel actions w.machine (
        put_last laws (p.double_text timeout) (put_last laws w.name laws.children_empty refl refl)
          refl refl) in
      let acted : StateMachine = replay actions w.machine.outputs w.machine.actions start.machine in
      let there_again =
        replay-Has actions w.machine.outputs id act made builds accepted w.machine.actions
          start.machine storable.actions_once there in
      (
        record acted {
          starters = acted.starters ++ w.machine.starters;
          exposed_properties = exposed_back laws own typed writes f fuel actions w.machine;
        },
        rw (
          load_machine-fields laws own typed writes f fuel actions w.machine start.machine storable
              holds,
          text_found laws {k = "name"} holds refl refl,
          text_found laws {k = "timeout"} holds refl refl,
          laws.double timeout finite,
        ),
        record {
          starters =
              ap (λ l. l ++ w.machine.starters)
                (replay-starters actions w.machine.outputs w.machine.actions start.machine);
          exposed = λ id.
              load_exposed-save_new laws id w.machine.exposed_properties storable.exposed_once
                storable.exposed;
        },
        record { action = there_again.action; bound = there_again.bound },
      )
