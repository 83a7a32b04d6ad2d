-- ===== src/Core/StateMachine/Specials.antt =====
-- The special actions of the machines that `addAction` builds (core/state_machine.cpp).
use libworkflow.Prelude.{
  ◌≡◌, refl, ap, ◌∙◌, sym, subst, ◌⊎◌, inl, inr, Bool, true, false, none, some, List, map,
}
use libworkflow.Prelude.Int.{ℤ, eqb_ℤ, ltb_ℤ, eqb_ℤ_iff}
use libworkflow.Prelude.Key.{int_key, string_key}
use libworkflow.Prelude.Map.{Map, lookup, insert, lookup-insert_ne}
use libworkflow.Core.Bindings.{OutputBinding, set_from_action_id}
use libworkflow.Core.Step
use libworkflow.Core.Action.Wrapper.{Action, WrapperKind}
use libworkflow.Core.StateMachine.Layout.{
  StateMachine, empty_machine, list_at, wrapper_for, expose_as, expose_marked, expose_properties,
  wrapped, install, add_action, add_input, init, next_action,
}
use libworkflow.Core.StateMachine.ErrorFlow.{HasErrorFlow}
use libworkflow.Core.StateMachine.Built.{
  BuiltKeeping, Built, in_error_flow, is_interrupt, started, with_action, with_input, with_exposed,
  expose_properties-Same, bound_machine, Built-WellFed,
}

-- Whether what is registered under an identifier stays as `init` leaves it: no action is added under
-- it, or `addAction` refuses it.
abbrev Stays : (kept : ℤ → Bool) → ℤ → Type 0
Stays kept k = (kept k ≡ true) ⊎ (wrapper_for k ≡ none)

-- What is registered under an identifier is the same in both machines.
record SameAt (k : ℤ) (m m' : StateMachine) : Type 0 where
  same_action : lookup k m'.actions ≡ lookup k m.actions
  same_bindings : lookup k m'.outputs ≡ lookup k m.outputs

install-SameAt :
    (w : WrapperKind) (id k : ℤ) (act : Action) (bs : List OutputBinding) (m : StateMachine)
    → eqb_ℤ id k ≡ false
    → SameAt k m (install w id act bs m)
unfolding install
install-SameAt w id k act bs m other =
    let s = expose_properties-Same id act.fields.properties (bound_machine w id act bs m) in
    record {
      same_action =
          ap (lookup k) s.same_actions ∙ lookup-insert_ne id k (wrapped w id act) m.actions other;
      same_bindings =
          ap (lookup k) s.same_outputs
          ∙ lookup-insert_ne id k (map (set_from_action_id id) bs) m.outputs other;
    }

-- An identifier that is added is another one than one that stays, or is refused.
other_id :
    (kept : ℤ → Bool) (id k : ℤ) (same : Bool)
    → eqb_ℤ id k ≡ same
    → Stays kept k
    → kept id ≡ false
    → (eqb_ℤ id k ≡ false) ⊎ (wrapper_for id ≡ none)
other_id kept id k false e stays added = inl e
other_id kept id k true e (inl named) added =
    let same : kept id ≡ kept k = ap kept ((eqb_ℤ_iff id k).0 e) in absurd (cc)
other_id kept id k true e (inr refused) added =
    inr (ap wrapper_for ((eqb_ℤ_iff id k).0 e) ∙ refused)

add_action-SameAt :
    (kept : ℤ → Bool) (id k : ℤ) (act : Action) (bs : List OutputBinding) (m : StateMachine)
    → Stays kept k
    → kept id ≡ false
    → SameAt k m (add_action id act bs m)
unfolding add_action
add_action-SameAt kept id k act bs m stays added =
    elim (other_id kept id k (eqb_ℤ id k) refl stays added) [
      | inr refused ↦
          subst (λ o. SameAt k m (elim o [ none ↦ m | some w ↦ install w id act bs m ]))
            (sym refused) (record { same_action = refl; same_bindings = refl })
      | inl other ↦
          elim (wrapper_for id)
            as (λ o. SameAt k m (elim o [ none ↦ m | some w ↦ install w id act bs m ])) [
              | none ↦ record { same_action = refl; same_bindings = refl }
              | some w ↦ install-SameAt w id k act bs m other
            ]
    ]

BuiltKeeping-SameAt :
    (kept : ℤ → Bool) (k : ℤ) {m : StateMachine}
    → Stays kept k
    → BuiltKeeping kept m
    → SameAt k (init empty_machine) m
unfolding add_input expose_as
BuiltKeeping-SameAt kept k stays started = record { same_action = refl; same_bindings = refl }
BuiltKeeping-SameAt kept k stays (with_action id act bs other b) =
    let before = BuiltKeeping-SameAt kept k stays b in
    let added = add_action-SameAt kept id k act bs _ stays other in
    record {
      same_action = added.same_action ∙ before.same_action;
      same_bindings = added.same_bindings ∙ before.same_bindings;
    }
BuiltKeeping-SameAt kept k stays (with_input b h) =
    let before = BuiltKeeping-SameAt kept k stays h in
    record { same_action = before.same_action; same_bindings = before.same_bindings }
BuiltKeeping-SameAt kept k stays (with_exposed id key alias h) =
    let before = BuiltKeeping-SameAt kept k stays h in
    record { same_action = before.same_action; same_bindings = before.same_bindings }

pub BuiltKeeping-no_interrupt :
    {m : StateMachine} → BuiltKeeping is_interrupt m → lookup Step.interrupt m.actions ≡ none
unfolding eqb_ℤ wrapper_for ltb_ℤ
BuiltKeeping-no_interrupt b =
    (BuiltKeeping-SameAt is_interrupt Step.interrupt (inl refl) b).same_action
    ∙ unfold init add_action wrapper_for install expose_properties expose_marked next_action
        empty_machine lookup insert eqb_ℤ ltb_ℤ in
      refl

pub Built-no_status : {m : StateMachine} → Built m → lookup Step.status m.actions ≡ none
unfolding eqb_ℤ wrapper_for ltb_ℤ
Built-no_status b =
    (BuiltKeeping-SameAt (λ id. false) Step.status (inr refl) b).same_action
    ∙ unfold init add_action wrapper_for install expose_properties expose_marked next_action
        empty_machine lookup insert eqb_ℤ ltb_ℤ in
      refl

list_at-some :
    {A : Type 0} (id : ℤ) (m : Map ℤ (List A)) {l : List A}
    → lookup id m ≡ some l
    → list_at id m ≡ l
list_at-some id m e = rw (e, list_at)

-- A machine built from `init` keeps its error flow, whatever actions are added under other
-- identifiers than those of `Error` and `Cleanup`, and whatever inputs and exposed properties: `Error`
-- leads to `Cleanup`, that leads to `Die`, and all that leads to `Cleanup` exists.
pub BuiltKeeping-HasErrorFlow : {m : StateMachine} → BuiltKeeping in_error_flow m → HasErrorFlow m
unfolding eqb_ℤ wrapper_for ltb_ℤ
BuiltKeeping-HasErrorFlow {m} b =
    let at_error = BuiltKeeping-SameAt in_error_flow Step.error (inl refl) b in
    let at_cleanup = BuiltKeeping-SameAt in_error_flow Step.cleanup (inl refl) b in
    record {
      error_action =
          at_error.same_action
          ∙ unfold init add_action wrapper_for install expose_properties expose_marked next_action
              empty_machine lookup insert eqb_ℤ ltb_ℤ in
            refl;
      error_bindings = list_at-some Step.error m.outputs (
          at_error.same_bindings
          ∙ unfold init add_action wrapper_for install expose_properties expose_marked next_action
              empty_machine lookup insert eqb_ℤ ltb_ℤ in
            refl);
      cleanup_action =
          at_cleanup.same_action
          ∙ unfold init add_action wrapper_for install expose_properties expose_marked next_action
              empty_machine lookup insert eqb_ℤ ltb_ℤ in
            refl;
      cleanup_bindings = list_at-some Step.cleanup m.outputs (
          at_cleanup.same_bindings
          ∙ unfold init add_action wrapper_for install expose_properties expose_marked next_action
              empty_machine lookup insert eqb_ℤ ltb_ℤ in
            refl);
      no_die =
          (BuiltKeeping-SameAt in_error_flow Step.die (inr refl) b).same_action
          ∙ unfold init add_action wrapper_for install expose_properties expose_marked next_action
              empty_machine lookup insert eqb_ℤ ltb_ℤ in
            refl;
      cleanup_sources = (Built-WellFed b).fed Step.cleanup;
    }
