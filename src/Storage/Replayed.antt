-- ===== src/Storage/Replayed.antt =====
-- The machine that the stored actions, added one by one, come to: core/state_machine.cpp.
use libworkflow.Prelude.{
  ◌≡◌, refl, ap, sym, subst, ◌∙◌, true, false, Option, none, some, List, [], ◌∷◌, map,
  if◌then◌else◌,
}
use libworkflow.Prelude.Int.{ℤ}
use libworkflow.Prelude.Key.{string_key, int_key, ◌==◌, eq_of_==}
use libworkflow.Prelude.Map.{Map, lookup, lookup-insert_self, lookup-insert_ne}
use libworkflow.Core.Bindings.{OutputBinding, set_from_action_id}
use libworkflow.Core.Action.Wrapper.{Action, WrapperKind}
use libworkflow.Core.StateMachine.Layout.{
  StateMachine, list_at, add_action, install, wrapper_for, wrapped,
}
use libworkflow.Core.StateMachine.Built.{Same, bound_machine, expose_properties-Same}
use libworkflow.Storage.Tree.{get_opt}
use libworkflow.Storage.Machine.{ActionFactory, create_action}
use libworkflow.Storage.ListsBack.{Distinct}
use libworkflow.Storage.MachineBack.{restored, replay}

some_injective : {A : Type 0} {a b : A} → some a ≡ some b → a ≡ b
some_injective {a} e = ap (λ o. get_opt a o) e

-- What the machine has of an action.
pub record Has (m : StateMachine) (id : ℤ) (act : Action) (bindings : List OutputBinding)
    : Type 0 where
  pub action : lookup id m.actions ≡ some act
  pub bound : lookup id m.outputs ≡ some bindings

-- What adding an action leaves alone, at another identifier.
record Keeps (j : ℤ) (m m' : StateMachine) : Type 0 where
  kept_action : lookup j m'.actions ≡ lookup j m.actions
  kept_bound : lookup j m'.outputs ≡ lookup j m.outputs

Keeps-trans : {j : ℤ} {l m n : StateMachine} → Keeps j l m → Keeps j m n → Keeps j l n
Keeps-trans a b = record {
  kept_action = b.kept_action ∙ a.kept_action;
  kept_bound = b.kept_bound ∙ a.kept_bound;
}

Has-Keeps :
    {j : ℤ} {m n : StateMachine} {act : Action} {bs : List OutputBinding}
    → Has m j act bs
    → Keeps j m n
    → Has n j act bs
Has-Keeps h k = record { action = k.kept_action ∙ h.action; bound = k.kept_bound ∙ h.bound }

module _ (id : ℤ) (act : Action) (bs : List OutputBinding) (m : StateMachine) where
  abbrev added : Option WrapperKind → StateMachine
  added c = elim c [ none ↦ m | some w ↦ install w id act bs m ]

  Same-install : (w : WrapperKind) → Same (bound_machine w id act bs m) (install w id act bs m)
  unfolding install
  Same-install w = expose_properties-Same id act.fields.properties (bound_machine w id act bs m)

  add_action-Has :
      {w : WrapperKind}
      → wrapper_for id ≡ some w
      → Has (add_action id act bs m) id (wrapped w id act) (map (set_from_action_id id) bs)
  unfolding add_action wrapper_for
  add_action-Has {w} accepted =
      let s = Same-install w in
      subst (λ c. Has (added c) id (wrapped w id act) (map (set_from_action_id id) bs))
        (sym accepted)
        (record {
          action =
              ap (lookup id) s.same_actions ∙ lookup-insert_self id (wrapped w id act) m.actions;
          bound =
              ap (lookup id) s.same_outputs
              ∙ lookup-insert_self id (map (set_from_action_id id) bs) m.outputs;
        })

  add_action-Keeps : (j : ℤ) → (id == j) ≡ false → Keeps j m (add_action id act bs m)
  unfolding add_action wrapper_for
  add_action-Keeps j other = elim (wrapper_for id) as (λ c. Keeps j m (added c)) [
    | none ↦ record { kept_action = refl; kept_bound = refl }
    | some w ↦
        let s = Same-install w in
        record {
          kept_action =
              ap (lookup j) s.same_actions
              ∙ lookup-insert_ne id j (wrapped w id act) m.actions other;
          kept_bound =
              ap (lookup j) s.same_outputs
              ∙ lookup-insert_ne id j (map (set_from_action_id id) bs) m.outputs other;
        }
  ]

  add_action-starters : (add_action id act bs m).starters ≡ m.starters
  unfolding add_action wrapper_for
  add_action-starters = elim (wrapper_for id) as (λ c. (added c).starters ≡ m.starters) [
    | none ↦ refl
    | some w ↦ (Same-install w).same_starters
  ]

module _ (actions : ActionFactory) (outputs : Map ℤ (List OutputBinding)) where
  abbrev next :
      (id : ℤ) (act : Action) (n : Map ℤ Action) (m : StateMachine) → Option Action → StateMachine
  next id act n m c = elim c [
    | none ↦ replay actions outputs n m
    | some made ↦
        replay actions outputs n (add_action id (restored made act) (list_at id outputs) m)
  ]

  pub replay-starters :
      (n : Map ℤ Action) (m : StateMachine) → (replay actions outputs n m).starters ≡ m.starters
  unfolding replay
  replay-starters [] m = refl
  replay-starters ((id, act) ∷ n) m =
      elim (create_action actions act.fields.name)
        as (λ c. (next id act n m c).starters ≡ m.starters) [
          | none ↦ replay-starters n m
          | some made ↦
              replay-starters n (add_action id (restored made act) (list_at id outputs) m)
              ∙ add_action-starters id (restored made act) (list_at id outputs) m
        ]

  replay-Keeps :
      (j : ℤ) (n : Map ℤ Action) (m : StateMachine)
      → lookup j n ≡ none
      → Keeps j m (replay actions outputs n m)
  unfolding replay lookup
  replay-Keeps j [] m absent = record { kept_action = refl; kept_bound = refl }
  replay-Keeps j ((id, act) ∷ n) m absent =
      elim (id == j)
          as (λ c.
            (id == j) ≡ c
            → (if c then some act else lookup j n) ≡ none
            → Keeps j m (next id act n m (create_action actions act.fields.name))) [
              | true ↦ λ same gone. absurd (cc)
              | false ↦ λ other absent'.
                  elim (create_action actions act.fields.name)
                    as (λ c. Keeps j m (next id act n m c)) [
                      | none ↦ replay-Keeps j n m absent'
                      | some made ↦
                          Keeps-trans
                            (add_action-Keeps id (restored made act) (list_at id outputs) m j other)
                            (replay-Keeps j n
                              (add_action id (restored made act) (list_at id outputs) m) absent')
                    ]
            ]
        refl absent

  -- Each stored action that a builder makes, under an identifier that is accepted, is in the machine.
  abbrev pub Restored : ℤ → (act made : Action) → WrapperKind → StateMachine → Type 0
  Restored id act made w m =
      Has m id (wrapped w id (restored made act)) (map (set_from_action_id id) (list_at id outputs))

  module _ (id : ℤ) (act made : Action) {w : WrapperKind}
      (builds : create_action actions act.fields.name ≡ some made)
      (accepted : wrapper_for id ≡ some w) where
    replay-Has_first :
        (n : Map ℤ Action) (m : StateMachine)
        → lookup id n ≡ none
        → Restored id act made w (next id act n m (create_action actions act.fields.name))
    replay-Has_first n m absent =
        subst (λ c. Restored id act made w (next id act n m c)) (sym builds)
          (Has-Keeps (add_action-Has id (restored made act) (list_at id outputs) m accepted)
            (replay-Keeps id n (add_action id (restored made act) (list_at id outputs) m) absent))

    pub replay-Has :
        (n : Map ℤ Action) (m : StateMachine)
        → Distinct n
        → lookup id n ≡ some act
        → Restored id act made w (replay actions outputs n m)
    unfolding replay lookup
    replay-Has [] m distinct there = absurd (cc)
    replay-Has ((k, a) ∷ n) m distinct there =
        elim (k == id)
            as (λ c.
              (k == id) ≡ c
              → (if c then some a else lookup id n) ≡ some act
              → Restored id act made w (next k a n m (create_action actions a.fields.name))) [
                | true ↦ λ same found.
                    subst
                      (λ k'.
                        lookup k' n ≡ none
                        → Restored id act made w
                            (next k' a n m (create_action actions a.fields.name)))
                      (sym (eq_of_== k id same))
                      (λ absent.
                        subst
                          (λ a'.
                            Restored id act made w
                              (next id a' n m (create_action actions a'.fields.name)))
                          (some_injective (sym found)) (replay-Has_first n m absent))
                      distinct.0
                | false ↦ λ other found.
                    elim (create_action actions a.fields.name)
                      as (λ c. Restored id act made w (next k a n m c)) [
                        | none ↦ replay-Has n m distinct.1 found
                        | some made' ↦
                            replay-Has n (add_action k (restored made' a) (list_at k outputs) m)
                              distinct.1 found
                      ]
              ]
          refl there
