-- ===== src/Core/StateMachine/Feeds.antt =====
-- What `inputs_map` says about the bindings of a machine (core/state_machine.cpp).
use libworkflow.Prelude.{
  ◌≡◌, refl, sym, ap, ◌∙◌, Bool, true, false, ◌||◌, ◌&&◌, none, some, List, [], ◌∷◌, arith,
}
use libworkflow.Prelude.Int.{ℤ, eqb_ℤ, eqb_ℤ_iff}
use libworkflow.Prelude.Key.{int_key}
use libworkflow.Prelude.Map.{Map, lookup, insert, lookup-insert}
use libworkflow.Prelude.IdSet.{mem, mem-insert}
use libworkflow.Prelude.IdSet
use libworkflow.Core.Bindings.{OutputBinding}
use libworkflow.Core.Step
use libworkflow.Core.Action.Contract.{new_action}
use libworkflow.Core.Action.Wrapper.{Action, WrapperKind, plain_action, default_methods}
use libworkflow.Core.StateMachine.Layout.{
  StateMachine, empty_machine, list_at, wrapper_for, expose_as, note_inputs, build_inputs, install,
  add_action, add_input, init, next_action, link,
}
use libworkflow.Core.StateMachine.Built.{
  Built, started, with_action, with_input, with_exposed, expose_properties-Same, bound_machine,
}

-- A binding leads from one action to another.
unfoldable pub leads : ℤ → ℤ → List OutputBinding → Bool
leads from to [] = false
leads from to (b ∷ bs) =
    (eqb_ℤ b.from_action_id from && eqb_ℤ b.to_action_id to) || leads from to bs

unfoldable pub feeds : ℤ → ℤ → Map ℤ (List OutputBinding) → Bool
unfolding leads
feeds from to [] = false
feeds from to ((id, bs) ∷ rest) = leads from to bs || feeds from to rest

note_inputs-leads :
    (from to : ℤ) (bs : List OutputBinding) (im : Map ℤ (List ℤ))
    → mem from (list_at to (note_inputs bs im)) ≡ (leads from to bs || mem from (list_at to im))
unfolding note_inputs leads
note_inputs-leads from to [] im = refl
note_inputs-leads from to (b ∷ bs) im =
    let noted = IdSet.insert b.from_action_id (list_at b.to_action_id im) in
    ground (
      arith,
      note_inputs-leads from to bs (insert b.to_action_id noted im),
      lookup-insert b.to_action_id to noted im,
      mem-insert b.from_action_id from (list_at b.to_action_id im),
      eqb_ℤ_iff b.to_action_id to,
    )

build_inputs-feeds :
    (from to : ℤ) (outs : Map ℤ (List OutputBinding)) (im : Map ℤ (List ℤ))
    → mem from (list_at to (build_inputs outs im))
      ≡ (feeds from to outs || mem from (list_at to im))
unfolding build_inputs feeds
build_inputs-feeds from to [] im = refl
build_inputs-feeds from to ((id, bs) ∷ rest) im =
    ground
      (arith, build_inputs-feeds from to rest (note_inputs bs im), note_inputs-leads from to bs im)

abbrev Rebuilt : StateMachine → Type 0
Rebuilt m = m.inputs_map ≡ build_inputs m.outputs []

install-Rebuilt :
    (w : WrapperKind) (id : ℤ) (act : Action) (bs : List OutputBinding) (m : StateMachine)
    → Rebuilt (install w id act bs m)
unfolding install
install-Rebuilt w id act bs m =
    let s = expose_properties-Same id act.fields.properties (bound_machine w id act bs m) in
    s.same_inputs_map ∙ ap (λ o. build_inputs o []) (sym s.same_outputs)

add_action-Rebuilt :
    (id : ℤ) (act : Action) (bs : List OutputBinding) (m : StateMachine)
    → Rebuilt m
    → Rebuilt (add_action id act bs m)
unfolding add_action
add_action-Rebuilt id act bs m h =
    elim (wrapper_for id) as (λ o. Rebuilt (elim o [ none ↦ m | some w ↦ install w id act bs m ])) [
      | none ↦ h
      | some w ↦ install-Rebuilt w id act bs m
    ]

empty-Rebuilt : Rebuilt empty_machine
unfolding empty_machine build_inputs
empty-Rebuilt = refl

Built-Rebuilt : {m : StateMachine} → Built m → Rebuilt m
unfolding add_input expose_as init
Built-Rebuilt started =
    let one =
      add_action-Rebuilt Step.initialisation (plain_action (new_action "Action") default_methods)
        (link Step.initialisation Step.finish ∷ []) empty_machine empty-Rebuilt in
    let two = add_action-Rebuilt Step.error next_action (link Step.error Step.cleanup ∷ []) _ one in
    let three =
      add_action-Rebuilt Step.finish next_action (link Step.finish Step.cleanup ∷ []) _ two in
    add_action-Rebuilt Step.cleanup next_action (link Step.cleanup Step.die ∷ []) _ three
Built-Rebuilt (with_action id act bs other b) = add_action-Rebuilt id act bs _ (Built-Rebuilt b)
Built-Rebuilt (with_input b h) = Built-Rebuilt h
Built-Rebuilt (with_exposed id key alias h) = Built-Rebuilt h

no_entries : (from to : ℤ) (b : Bool) → (b || mem from (list_at to [])) ≡ b
unfolding lookup mem
no_entries from to true = refl
no_entries from to false = refl

-- In a machine built from `init`, `inputs_map` lists an action under another exactly where a
-- binding leads from the first to the second.
pub inputs_map-feeds :
    (from to : ℤ) (m : StateMachine)
    → Built m
    → mem from (list_at to m.inputs_map) ≡ feeds from to m.outputs
inputs_map-feeds from to m b =
    rw (Built-Rebuilt b)
      (build_inputs-feeds from to m.outputs [] ∙ no_entries from to (feeds from to m.outputs))
