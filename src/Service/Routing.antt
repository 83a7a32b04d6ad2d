-- ===== src/Service/Routing.antt =====
-- service/controller_manager.cpp, service/client_manager.cpp and core/controller.cpp: where a
-- request goes. A manager and a controller run their calls on their own threads: what they hand on
-- is kept in lists, in the order of the calls. A nil uuid is 0.
use libworkflow.Prelude.{
  ℕ, String, Bool, true, false, not, ◌==◌, none, some, List, [], ◌∷◌, ◌++◌, if◌then◌else◌, is_empty,
}
use libworkflow.Prelude.Key.{nat_key, string_key, ◌==◌ as is_key}
use libworkflow.Prelude.Map.{Map, lookup, insert, erase, has}
use libworkflow.Prelude.Outcome.{Outcome, ok, deref, ◌>>=◌}
use libworkflow.Core.Target
use libworkflow.Core.Request.{Request, create_reply, set_error_report}
use libworkflow.Core.Workflow.{Workflow}
use libworkflow.Service.Client.{Client, send_request, is_no_reply}
use libworkflow.Tools.ErrorReport.{ErrorReport, copy, empty_report}

pub record Managers : Type 0 where
  pub clients : Map ℕ Client
  pub controllers : Map String (Map String Workflow)
  pub posted : List (String × String × Request)
  pub queue : List Request

unfoldable pub add_client : Client → Managers → Managers
add_client c ms = record ms { clients = insert c.client_id c ms.clients }

unfoldable pub remove_client : ℕ → Managers → Managers
remove_client id ms = record ms { clients = erase id ms.clients }

unfoldable pub register_controller : (name : String) → Map String Workflow → Managers → Managers
register_controller name ws ms = record ms { controllers = insert name ws ms.controllers }

-- The error that goes back for a request that a client refused.
unfoldable pub refusal : Request → ErrorReport → Request
refusal request er =
    let back = set_error_report (create_reply request) (some (copy er)) in
    record back { target = record back.target { target = Target.error } }

-- `ClientManager::perform`
unfoldable pub perform_for_client : Request → Managers → Bool × Managers
perform_for_client request ms = elim (lookup request.target.client_id ms.clients) [
  | none ↦ (false, ms)
  | some c ↦
      let mail = send_request request empty_report c in
      let ms' = record ms { clients = insert request.target.client_id mail.client ms.clients } in
      if mail.accepted
      then (true, ms')
      else if is_no_reply request.reply.target
      then (false, ms')
      else (false, record ms' { queue = ms.queue ++ refusal request mail.error ∷ [] })
]

-- `Controller::perform`: a known workflow gets the request on its queue.
unfoldable pub perform_for_controller :
    (name : String) → Map String Workflow → Request → Managers → Bool × Managers
perform_for_controller name ws request ms =
    if has request.target.workflow ws
    then (true, record ms { posted = ms.posted ++ (name, request.target.workflow, request) ∷ [] })
    else (false, ms)

-- `perform` of the controller that is registered under a name: what the temporary one does, given
-- its workflows, is an argument.
unfoldable pub perform_in :
    (temporary : Map String Workflow → Request → Managers → Outcome Managers)
    → (name : String) → Request
    → Managers
    → Outcome Managers
unfolding perform_for_controller
perform_in temporary name req ms = deref (lookup name ms.controllers) >>= λ ws.
    if is_key {K = String} name "temporary"
    then temporary ws req ms
    else ok (perform_for_controller name ws req ms).1

-- `ControllerManager::perform`
unfoldable pub perform :
    (temporary : Map String Workflow → Request → Managers → Outcome Managers)
    → Request
    → Managers
    → Outcome Managers
unfolding perform_for_client perform_in
perform temporary req ms =
    if is_no_reply req.target.target
    then ok ms
    else if not (req.target.client_id == 0)
    then ok (perform_for_client req ms).1
    else if not (is_empty req.workflow_json)
    then perform_in temporary "temporary" req ms
    else if has req.target.controller ms.controllers
    then perform_in temporary req.target.controller req ms
    else perform_in temporary "default" req ms
