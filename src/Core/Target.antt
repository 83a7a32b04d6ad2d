-- ===== src/Core/Target.antt =====
-- core/target.h and core/target.cpp: whom a request is for.
-- A uuid is the number that its bytes write; the nil uuid is 0.
use libworkflow.Prelude.{ℕ, String, Bool, Option, none, some, [], ◌∷◌, ltb}
use libworkflow.Prelude.Int.{ℤ, negsuc}
use libworkflow.Prelude.Key.{string_key}
use libworkflow.Prelude.Map.{Map, lookup}

pub data TargetAction : Type 0 where
  default_action status interrupt error reply no_reply : TargetAction

pub record Target : Type 0 where
  pub controller : String
  pub workflow : String
  pub identifier : ℕ
  pub client_id : ℕ
  pub execution_level : ℕ
  pub target : TargetAction
  pub action : ℤ

-- The constructors. The identifier is the random uuid drawn; no constructor gives
-- `execution_level` a value, so what the memory held is an argument.
unfoldable pub new_target : (controller workflow : String) (uuid level : ℕ) → Target
new_target controller workflow uuid level = record {
  controller = controller;
  workflow = workflow;
  identifier = uuid;
  client_id = 0;
  execution_level = level;
  target = default_action;
  action = negsuc 0;
}

-- `operator<`: the identifier alone.
unfoldable pub target_less : Target → Target → Bool
target_less t u = ltb t.identifier u.identifier

-- The names of `ETargetAction`, and the way back with its default.
unfoldable pub action_name : TargetAction → String
action_name default_action = "DefaultAction"
action_name status = "Status"
action_name interrupt = "Interrupt"
action_name error = "Error"
action_name reply = "Reply"
action_name no_reply = "NoReply"

abbrev action_names : Map String TargetAction
action_names =
    ("DefaultAction", default_action)
    ∷ ("Error", error)
    ∷ ("Interrupt", interrupt)
    ∷ ("NoReply", no_reply)
    ∷ ("Reply", reply)
    ∷ ("Status", status)
    ∷ []

abbrev or_default : Option TargetAction → TargetAction
or_default none = default_action
or_default (some t) = t

unfoldable pub action_of_name : String → TargetAction
action_of_name s = or_default (lookup s action_names)
