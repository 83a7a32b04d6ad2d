-- ===== src/Service/Temporary.antt =====
-- core/controller.cpp: the workflows of a controller, and the temporary controller, which runs the
-- workflow that comes with a request. What it gives to the controller manager is put on its queue.
use Prim.Native.String.{◌++◌ as append}
use libworkflow.Prelude.{
  ℕ, String, Bool, true, false, Option, none, some, List, [], ◌∷◌, ◌++◌, is_empty, if◌then◌else◌,
}
use libworkflow.Prelude.Key.{string_key}
use libworkflow.Prelude.Map.{Map, lookup, insert, erase}
use libworkflow.Prelude.Outcome.{Outcome, ok, ◌>>=◌}
use libworkflow.Core.Target
use libworkflow.Core.Target.{TargetAction}
use libworkflow.Core.Request.{Request, create_reply, set_error_report}
use libworkflow.Core.Workflow.{Workflow, new_workflow}
use libworkflow.Core.StateMachine.Validation.{Problem, validate}
use libworkflow.Service.Routing.{Managers, register_controller, perform_for_controller}
use libworkflow.Storage.Tree.{PropertyTree}
use libworkflow.Storage.Contexts.{ContextFactory}
use libworkflow.Storage.Machine.{ActionFactory}
use libworkflow.Storage.Text.{str_load}
use libworkflow.Storage.Workflow.{load_workflow}
use libworkflow.Tools.ErrorReport.{ErrorReport, copy, empty_report, is_set, set_error}
use libworkflow.Tools.PropertySet.Typed.{Double}
pub mod Life
mod Tests

unfoldable pub add_workflow :
    (describe : Problem → String) → Workflow → Map String Workflow → Bool × Map String Workflow
unfolding validate is_set
add_workflow describe w ws =
    if is_set (validate describe w.machine) then (false, ws) else (true, insert w.name w ws)

unfoldable pub drop_workflow : (key : String) → Map String Workflow → Map String Workflow
drop_workflow key ws = erase key ws

unfoldable pub get_workflow : (name : String) → Map String Workflow → Option Workflow
get_workflow name ws = lookup name ws

-- `TemporaryController::requestFinished`
unfoldable pub request_finished_temporary : Request → Map String Workflow → Map String Workflow
unfolding drop_workflow
request_finished_temporary req ws = drop_workflow req.target.workflow ws

abbrev pub is_reply : TargetAction → Bool
is_reply Target.reply = true
is_reply _ = false

-- The error reply to a request.
unfoldable pub error_reply : Request → ErrorReport → Managers → Managers
unfolding create_reply set_error_report
error_reply req er ms = record ms {
  queue = ms.queue ++ set_error_report (create_reply req) (some er) ∷ [];
}

-- The branch without a workflow.
unfoldable pub serve_empty : Map String Workflow → Request → Managers → Bool × Managers
unfolding error_reply perform_for_controller set_error empty_report
serve_empty ws req ms =
    if is_reply req.target.target then perform_for_controller "temporary" ws req ms else (
      false,
      error_reply req
          (set_error empty_report "temporary.empty.workflow"
            "Empty workflow provided, can't execute request.")
          ms,
    )

-- The request, for the workflow that came with it.
unfoldable pub readdressed : Request → (name : String) → Request
readdressed req name = record req {
  target = record req.target { workflow = name; controller = "temporary" };
}

abbrev pub renamed : (prefix : String) → Workflow → Workflow
renamed prefix w = record w { name = append prefix w.name }

-- The branch with a workflow, once it is loaded: after the error reply for a workflow that is not
-- valid, the call goes on. `prefix` are the three letters of a new random identifier.
unfoldable pub serve_loaded :
    (describe : Problem → String)
    → (prefix : String) → Map String Workflow
    → Request
    → Managers
    → Workflow
    → Bool × Managers
unfolding validate is_set error_reply add_workflow readdressed register_controller
    perform_for_controller copy
serve_loaded describe prefix ws req ms wkf =
    let er = validate describe wkf.machine in
    let told : Managers = if is_set er then error_reply req (copy er) ms else ms in
    let ws' : Map String Workflow = (add_workflow describe (renamed prefix wkf) ws).1 in
    perform_for_controller "temporary" ws' (readdressed req (renamed prefix wkf).name)
      (register_controller "temporary" ws' told)

-- What `str_load` reads a workflow with: the tree and the JSON reader of Boost, the registered classes,
-- and what is left of a workflow whose load throws.
pub record Reader (T : Type 0) : Type 0 where
  pub tree : PropertyTree T
  pub read_json : String → Option T
  pub contexts : ContextFactory
  pub fuel : ℕ
  pub actions : ActionFactory
  pub left : Workflow × Double

unfoldable pub load_temporary :
    {T : Type 0} → Reader T → (timeout : Double) → String → Outcome (Bool × (Workflow × Double))
unfolding str_load load_workflow new_workflow
load_temporary r timeout text =
    str_load r.read_json (λ root w. load_workflow r.tree r.contexts r.fuel r.actions root w.0 w.1)
      r.left text (new_workflow "", timeout)

-- `TemporaryController::perform`: what `str_load` returns is not looked at.
unfoldable pub perform_temporary :
    {T : Type 0}
    → Reader T
    → (timeout : Double) → (describe : Problem → String) → (prefix : String) → Map String Workflow
    → Request
    → Managers
    → Outcome (Bool × Managers)
unfolding serve_empty load_temporary serve_loaded
perform_temporary r timeout describe prefix ws req ms =
    if is_empty req.workflow_json
    then ok (serve_empty ws req ms)
    else (load_temporary r timeout req.workflow_json >>= λ loaded.
        ok (serve_loaded describe prefix ws req ms loaded.1.0))

-- The same, as the controller manager calls it: it drops the answer.
abbrev pub temporary_of :
    {T : Type 0}
    → Reader T
    → (timeout : Double) → (describe : Problem → String) → (prefix : String) → Map String Workflow
    → Request
    → Managers
    → Outcome Managers
temporary_of r timeout describe prefix ws req ms =
    perform_temporary r timeout describe prefix ws req ms >>= λ served. ok served.1
