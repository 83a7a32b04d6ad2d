-- ===== src/Storage/Wrapped.antt =====
-- What is saved of an action that `addAction` has wrapped: core/action.cpp, core/action_wrappers.cpp.
use libworkflow.Prelude.{String, ◌≡◌, ap, ◌∙◌, sym, true, if◌then◌else◌}
use libworkflow.Core.Action.Contract.{new_action}
use libworkflow.Core.Action.Wrapper.{Action, is_wrapped}
use libworkflow.Storage.Tree.{PropertyTree}
use libworkflow.Storage.Machine.{own_fields, save_action, save_data}

own_fields-wrapped :
    (a : Action) → is_wrapped a.wrapper ≡ true → own_fields a ≡ new_action a.fields.name
unfolding own_fields new_action
own_fields-wrapped a h = ap (λ c. if c then new_action a.fields.name else a.fields) h

module _ {T : Type 0} (p : PropertyTree T) (own : String → T → T) where
  -- Of two wrapped actions of the same name the same is saved, whatever their properties, their
  -- identifiers, their inputs and outputs and the kinds of their wrappers.
  pub save_action-wrapped :
      (a b : Action) (root : T)
      → is_wrapped a.wrapper ≡ true
      → is_wrapped b.wrapper ≡ true
      → a.fields.name ≡ b.fields.name
      → save_action p own a root ≡ save_action p own b root
  unfolding save_action own_fields
  save_action-wrapped a b root wa wb same_name =
      ap (λ d. save_data p own d root)
        (own_fields-wrapped a wa ∙ ap new_action same_name ∙ sym (own_fields-wrapped b wb))
