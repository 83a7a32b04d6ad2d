-- ===== src/Actions/ExecuteWorkflow.antt =====
-- actions/communication/execute_workflow.cpp: an action that runs another workflow, by a request to
-- it. A property set held as a custom value is a context: `cast` is the cast back to a set.
use libworkflow.Prelude.{String, Bool, true, false, Option, none, some, [], ◌∷◌, if◌then◌else◌}
use libworkflow.Prelude.Key.{string_key}
use libworkflow.Prelude.Map.{Map}
use libworkflow.Prelude.Outcome.{Outcome, ok, ◌>>=◌}
use libworkflow.Core.Target.{Target, default_action, no_reply}
use libworkflow.Core.Context.{Context}
use libworkflow.Core.Request.{Request, new_request}
use libworkflow.Core.Session.{Session}
use libworkflow.Core.Action.Contract.{
  ActionData, PutDefinition, new_action, write_output, fingerprint,
}
use libworkflow.Core.Action.Properties.{bool_property, string_property, custom_property}
use libworkflow.Core.Action.Results.{
  Performed, result_done, result_error_report, prepare_sync_request, execute_sync_request,
}
use libworkflow.Tools.ErrorReport.{ErrorReport, is_set, with_parent}
use libworkflow.Tools.PropertySet.Typed.{PropertySet}
use libworkflow.Tools.PropertySet.Kinds.{
  define_bool_property, define_string_property, define_custom_property,
}

-- The members of the class: those of an action, and whether it has been prepared.
pub record ExecuteWorkflow : Type 0 where
  pub fields : ActionData
  pub prepared : Bool

-- The constructors: the one without names is dynamic. `customization` is the new property set.
unfoldable pub new_execute_workflow :
    (dynamic : Bool) → (controller workflow : String) → (customization : Context) → ExecuteWorkflow
unfolding new_action define_bool_property define_string_property define_custom_property
new_execute_workflow dynamic controller workflow customization =
    let a = new_action "ExecuteWorkflow" in
    let p1 =
      define_bool_property a.properties "dynamic" dynamic
        "If set to true, will refresh inputs/outputs expectations and property transfert upon checkInputs."
        false in
    let p2 = define_string_property p1 "controller" controller "Targeted controller" false in
    let p3 =
      define_string_property p2 "workflow" workflow
        (if dynamic then "Targeted Workflow" else "Targeted workflow") false in
    let p4 =
      define_custom_property p3 "customization" (some customization)
        "Will be provided as general customization to the request" false in
    let p5 =
      define_bool_property p4 "sync" true " Tell whether the call should be synchroneous, or not."
        false in
    let p6 =
      define_bool_property p5 "allow_error" false
        "When set to true, if targeted sync workflow fails, this one won't fail." false in
    record { fields = record a { properties = p6 }; prepared = false }

-- `new Request()`, from the two new targets.
unfoldable pub new_empty_request : (target reply : Target) → Request
unfolding new_request
new_empty_request target reply =
    new_request (record target { target = no_reply }) (record reply { target = no_reply })

-- The lines that both branches of `perform` have: whom the request is for, and its bypass.
unfoldable pub address :
    (cast : Option Context → Option PropertySet)
    → ActionData
    → Session
    → Request
    → Outcome (Session × Request)
unfolding string_property custom_property
address cast a session req = do
  controller ← string_property a session "controller" ""
  workflow ← string_property a controller.0 "workflow" ""
  customization ← custom_property a workflow.0 "customization" none
  ok (
    customization.0,
    record req {
      target = record req.target {
        controller = controller.1;
        workflow = workflow.1;
        target = default_action;
      };
      bypass = cast customization.1;
    },
  )

-- `perform` once "sync" is read: the request of the second branch is made, and then let go.
unfoldable pub perform_by :
    (cast : Option Context → Option PropertySet)
    → (target reply : Target) → ActionData
    → Session
    → Bool
    → Outcome Performed
unfolding prepare_sync_request execute_sync_request address new_empty_request result_done
perform_by cast target reply a session true = do
  req ← prepare_sync_request a session (new_empty_request target reply)
  addressed ← address cast a session req
  execute_sync_request a addressed.0 addressed.1
perform_by cast target reply a session false = do
  addressed ← address cast a session (new_empty_request target reply)
  ok (record { session = addressed.0; sent = []; result = result_done a })

unfoldable pub perform_execute :
    (cast : Option Context → Option PropertySet)
    → (target reply : Target) → ActionData
    → Session
    → Outcome Performed
unfolding bool_property perform_by
perform_execute cast target reply a session = do
  sync ← bool_property a session "sync" false
  perform_by cast target reply a sync.0 sync.1

-- `setOutput(session, name, checker->generate())` for each output.
unfoldable pub default_outputs : ActionData → Map String PutDefinition → Session → Outcome Session
unfolding write_output
default_outputs a [] session = ok session
default_outputs a ((name, d) ∷ ds) session =
    write_output a name (some d.checker.generate) session >>= λ session'.
    default_outputs a ds session'

-- `setOutput(session, name, context)` for each context of the reply.
unfoldable pub forward_outputs : ActionData → Map String Context → Session → Outcome Session
unfolding write_output
forward_outputs a [] session = ok session
forward_outputs a ((name, c) ∷ cs) session =
    write_output a name (some c) session >>= λ session'. forward_outputs a cs session'

abbrev pub has_error : Option ErrorReport → Bool
has_error none = false
has_error (some er) = is_set er

abbrev pub done_with : ActionData → Session → Performed
done_with a session = record { session = session; sent = []; result = result_done a }

unfoldable pub reply_received_execute : ActionData → Session → Request → Outcome Performed
unfolding bool_property default_outputs forward_outputs result_error_report with_parent is_set
reply_received_execute a session reply = do
  sync ← bool_property a session "sync" false
  if sync.1
      then (if has_error reply.report
          then (do
            allowed ← bool_property a sync.0 "allow_error" false
            logged ← fingerprint a allowed.0
            if allowed.1
                then (do given ← default_outputs a a.outputs logged; ok (done_with a given))
                else (do
                  result ←
                      result_error_report a logged
                        (some (with_parent reply.target reply.report "" ""))
                  ok (record { session = logged; sent = []; result = result })))
          else (do given ← forward_outputs a reply.context sync.0; ok (done_with a given)))
      else fingerprint a (done_with a sync.0)

unfoldable pub can_handle_error_execute : ActionData → Session → Outcome (Session × Bool)
unfolding bool_property
can_handle_error_execute a session = bool_property a session "allow_error" false
