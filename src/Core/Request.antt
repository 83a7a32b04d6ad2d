-- ===== src/Core/Request.antt =====
-- core/request.h and core/request.cpp. The controller spawn is an empty class and is left out.
use libworkflow.Prelude.{ℕ, String, Option, none, some, []}
use libworkflow.Prelude.Int.{ℤ}
use libworkflow.Prelude.Key.{int_key, string_key}
use libworkflow.Prelude.Map.{Map, lookup, insert}
use libworkflow.Core.Context.{Context, GroupedCtx, get_context, set_context}
use libworkflow.Core.Target.{Target, no_reply}
use libworkflow.Tools.PropertySet.Typed.{PropertySet, empty_set}
use libworkflow.Tools.ErrorReport.{ErrorReport}

pub record Request : Type 0 where
  pub target : Target
  pub reply : Target
  pub request_id : ℕ
  pub context : GroupedCtx
  pub bypass : Option PropertySet
  pub action_bypasses : Map ℤ PropertySet
  pub report : Option ErrorReport
  pub workflow_json : String

-- `Request(target, reply)`
unfoldable pub new_request : Target → Target → Request
unfolding empty_set
new_request target reply = record {
  target = target;
  reply = reply;
  request_id = target.identifier;
  context = [];
  bypass = some empty_set;
  action_bypasses = [];
  report = none;
  workflow_json = "";
}

-- `Request(target)`: the reply target is a new one, which nobody is to reply to.
unfoldable pub request_without_reply : Target → (fresh : Target) → Request
unfolding new_request
request_without_reply target fresh = new_request target (record fresh { target = no_reply })

unfoldable pub get_id : Request → ℕ
get_id r = r.target.identifier

-- `createReply`: the target and the reply change places, and the request id is kept.
unfoldable pub create_reply : Request → Request
unfolding new_request
create_reply r = record (new_request r.reply r.target) { request_id = r.request_id }

unfoldable pub set_error_report : Request → Option ErrorReport → Request
set_error_report r e = record r { report = e }

unfoldable pub set_request_context : Request → String → Option Context → Request
unfolding set_context
set_request_context r key c = record r { context = set_context r.context key c }

unfoldable pub get_request_context : Request → String → Option Context
unfolding get_context
get_request_context r key = get_context r.context key

-- `getActionBypasses(id)`: an absent set is created empty, and stays.
unfoldable pub get_action_bypass : Request → ℤ → Request × PropertySet
unfolding empty_set
get_action_bypass r id = elim (lookup id r.action_bypasses) [
  | none ↦ (record r { action_bypasses = insert id empty_set r.action_bypasses }, empty_set)
  | some s ↦ (r, s)
]
