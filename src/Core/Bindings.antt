-- ===== src/Core/Bindings.antt =====
-- core/bindings.h and core/bindings.cpp.
use libworkflow.Prelude.{String}
use libworkflow.Prelude.Int.{ℤ}

-- A context of the request goes to an input of a starting action.
pub record InputBinding : Type 0 where
  pub workflow_input : String
  pub action_id : ℤ
  pub action_input : String

-- An output of one action goes to an input of another.
pub record OutputBinding : Type 0 where
  pub from_action_id : ℤ
  pub from_action_output : String
  pub to_action_id : ℤ
  pub to_action_input : String

unfoldable pub set_from_action_id : ℤ → OutputBinding → OutputBinding
set_from_action_id id b = record b { from_action_id = id }
