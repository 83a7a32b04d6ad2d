-- ===== src/Service/Temporary/Life.antt =====
-- What becomes of a request that comes with a workflow (core/controller.cpp).
use libworkflow.Prelude.{
  String, Bool, true, false, ◌==◌, ◌≡◌, refl, ap, none, some, [], ◌∷◌, ◌++◌, is_empty,
  if◌then◌else◌, arith, ◌∙◌,
}
use libworkflow.Prelude.Key.{string_key}
use libworkflow.Prelude.Map.{
  Map, lookup, has, insert, erase, lookup-insert, lookup-insert_self, lookup-erase,
}
use libworkflow.Prelude.Int.{eqb_ℤ, ltb_ℤ}
use libworkflow.Prelude.Outcome.{ok, ◌>>=◌}
use libworkflow.Core.Request.{Request, create_reply, set_error_report}
use libworkflow.Core.Workflow.{Workflow, new_workflow}
use libworkflow.Core.StateMachine.Validation.{
  Problem, validate, report, starting_problems, all_binding_problems, binding_problems,
  binding_problem, name_problem,
}
use libworkflow.Core.Action.Contract.{expect_input, expect_output}
use libworkflow.Core.Action.Wrapper.{action_expect_input, action_expect_output}
use libworkflow.Storage.Text.{str_load}
use libworkflow.Service.Client.{is_no_reply}
use libworkflow.Service.Routing.{
  Managers, perform, perform_in, register_controller, perform_for_controller,
}
use libworkflow.Service.Temporary.{
  Reader, serve_empty, load_temporary, perform_temporary, temporary_of, serve_loaded, readdressed,
  renamed, request_finished_temporary, drop_workflow, add_workflow, error_reply,
}
use libworkflow.Tools.ErrorReport.{copy, is_set, empty_report}
use libworkflow.Tools.PropertySet.Typed.{Double}

-- The request is on the queue of the new workflow, no reply is sent, and the end of the request takes
-- the workflow away again.
pub record Served (ms ms' : Managers) (ws : Map String Workflow) (req : Request) (w : Workflow)
    : Type 0 where
  pub posted : ms'.posted ≡ ms.posted ++ ("temporary", w.name, readdressed req w.name) ∷ []
  pub queue : ms'.queue ≡ ms.queue
  pub now : Map String Workflow
  pub registered : lookup "temporary" ms'.controllers ≡ some now
  pub found : lookup w.name now ≡ some w
  pub dropped :
      (key : String)
      → lookup key (request_finished_temporary (readdressed req w.name) now) ≡ lookup key ws

lookup-erase-insert :
    (name : String) (w : Workflow) (ws : Map String Workflow)
    → lookup name ws ≡ none
    → (key : String) → lookup key (erase name (insert name w ws)) ≡ lookup key ws
lookup-erase-insert name w ws fresh key = ground (
  arith,
  fresh,
  lookup-erase name key (insert name w ws),
  lookup-insert name key w ws,
  string_key.eqb_iff name key,
  ap (λ n. lookup n ws) {x = name} {y = key},
)

-- The workflow with the actions of `init` only is valid.
pub new_workflow-valid :
    (describe : Problem → String) → is_set (validate describe (new_workflow "").machine) ≡ false
unfolding validate new_workflow empty_report report starting_problems eqb_ℤ ltb_ℤ
    all_binding_problems insert binding_problems binding_problem lookup name_problem is_set
    action_expect_output expect_output action_expect_input expect_input
new_workflow-valid describe = refl

-- All that `Controller::perform` changes are the queues of the workflows.
record Posts (ms ms' : Managers) (known : Bool) (item : String × String × Request) : Type 0 where
  same_queue : ms'.queue ≡ ms.queue
  same_controllers : ms'.controllers ≡ ms.controllers
  now_posted : ms'.posted ≡ (if known then ms.posted ++ item ∷ [] else ms.posted)

posted-Posts :
    (known : Bool) (ms : Managers) (item : String × String × Request)
    → Posts ms
        (if◌then◌else◌ {A = Bool × Managers} known
          (true, record ms { posted = ms.posted ++ item ∷ [] })
          (false, ms)).1
        known
        item
posted-Posts true ms item = record { same_queue = refl; same_controllers = refl; now_posted = refl }
posted-Posts false ms item = record {
  same_queue = refl;
  same_controllers = refl;
  now_posted = refl;
}

module _ {T : Type 0} (r : Reader T) (timeout : Double) (describe : Problem → String)
    (prefix : String) (req : Request) (ms : Managers) (ws : Map String Workflow) where
  perform_temporary-loaded :
      is_empty req.workflow_json ≡ false
      → {read : Bool} {w : Workflow} {after : Double}
      → load_temporary r timeout req.workflow_json ≡ ok (read, (w, after))
      → perform_temporary r timeout describe prefix ws req ms
        ≡ ok (serve_loaded describe prefix ws req ms w)
  unfolding perform_temporary
  perform_temporary-loaded with_text loads =
      ap
        (λ empty.
          if empty
          then ok (serve_empty ws req ms)
          else (load_temporary r timeout req.workflow_json >>= λ loaded.
              ok (serve_loaded describe prefix ws req ms loaded.1.0)))
        with_text
      ∙ ap (λ o. o >>= (λ loaded. ok (serve_loaded describe prefix ws req ms loaded.1.0))) loads

  perform-served :
      is_no_reply req.target.target ≡ false
      → (req.target.client_id == 0) ≡ true
      → is_empty req.workflow_json ≡ false
      → lookup "temporary" ms.controllers ≡ some ws
      → {read : Bool} {w : Workflow} {after : Double}
      → load_temporary r timeout req.workflow_json ≡ ok (read, (w, after))
      → perform (temporary_of r timeout describe prefix) req ms
        ≡ ok (serve_loaded describe prefix ws req ms w).1
  unfolding perform perform_in
  perform-served asks no_client with_text there loads =
      rw (asks, no_client, with_text, there)
        (ap (λ o. o >>= (λ served. ok served.1)) (perform_temporary-loaded with_text loads))

  -- A request that comes with a workflow which is read and valid is put on the queue of that workflow,
  -- under a new name, nothing else is sent, and when the request has finished the workflows of the
  -- temporary controller are those of before.
  pub temporary-served :
      is_no_reply req.target.target ≡ false
      → (req.target.client_id == 0) ≡ true
      → is_empty req.workflow_json ≡ false
      → lookup "temporary" ms.controllers ≡ some ws
      → {read : Bool} {w : Workflow} {after : Double}
      → load_temporary r timeout req.workflow_json ≡ ok (read, (w, after))
      → is_set (validate describe w.machine) ≡ false
      → lookup (renamed prefix w).name ws ≡ none
      → (ms' : Managers) × (perform (temporary_of r timeout describe prefix) req ms ≡ ok ms')
        × Served ms ms' ws req (renamed prefix w)
  unfolding serve_loaded perform_for_controller register_controller add_workflow readdressed
      request_finished_temporary drop_workflow
  temporary-served asks no_client with_text there {w} loads valid fresh = (
    (serve_loaded describe prefix ws req ms w).1,
    perform-served asks no_client with_text there loads,
    rw (valid, lookup-insert_self (renamed prefix w).name (renamed prefix w) ws)
        record {
          posted = refl;
          queue = refl;
          now = insert (renamed prefix w).name (renamed prefix w) ws;
          registered =
              lookup-insert_self "temporary" (insert (renamed prefix w).name (renamed prefix w) ws)
                ms.controllers;
          found = lookup-insert_self (renamed prefix w).name (renamed prefix w) ws;
          dropped = lookup-erase-insert (renamed prefix w).name (renamed prefix w) ws fresh;
        },
  )

  load_temporary-unread :
      is_empty req.workflow_json ≡ false
      → r.read_json req.workflow_json ≡ none
      → load_temporary r timeout req.workflow_json ≡ ok (false, (new_workflow "", timeout))
  unfolding load_temporary str_load
  load_temporary-unread with_text unread = rw (with_text, unread)

  -- A request whose workflow is not valid gets one error reply, with the report of `validate`, and the
  -- workflows of the temporary controller do not change; but the call goes on, and where a workflow of
  -- the new name is already there, the request is put on its queue.
  pub temporary-refused :
      is_no_reply req.target.target ≡ false
      → (req.target.client_id == 0) ≡ true
      → is_empty req.workflow_json ≡ false
      → lookup "temporary" ms.controllers ≡ some ws
      → {read : Bool} {w : Workflow} {after : Double}
      → load_temporary r timeout req.workflow_json ≡ ok (read, (w, after))
      → is_set (validate describe w.machine) ≡ true
      → (ms' : Managers) × (perform (temporary_of r timeout describe prefix) req ms ≡ ok ms')
        × (ms'.queue
            ≡ ms.queue
              ++ set_error_report (create_reply req) (some (copy (validate describe w.machine)))
                ∷ [])
        × (lookup "temporary" ms'.controllers ≡ some ws)
        × (ms'.posted ≡ (
            if has (renamed prefix w).name ws
            then ms.posted
              ++ ("temporary", (renamed prefix w).name, readdressed req (renamed prefix w).name)
                ∷ []
            else ms.posted))
  unfolding serve_loaded perform_for_controller register_controller add_workflow readdressed
      error_reply
  temporary-refused asks no_client with_text there {w} loads wrong =
      let name : String = (renamed prefix w).name in
      let posts =
        posted-Posts (has name ws)
          (register_controller "temporary" ws
            (error_reply req (copy (validate describe w.machine)) ms))
          ("temporary", name, readdressed req name) in
      (
        (serve_loaded describe prefix ws req ms w).1,
        perform-served asks no_client with_text there loads,
        rw wrong posts.same_queue,
        rw wrong (
            ap (lookup "temporary") posts.same_controllers
            ∙ lookup-insert_self "temporary" ws ms.controllers),
        rw wrong posts.now_posted,
      )

  -- A request whose text is no JSON is not refused: what `str_load` returns is not looked at, and the
  -- workflow without actions of its own, which is valid, serves the request like one that was read.
  pub temporary-unreadable :
      is_no_reply req.target.target ≡ false
      → (req.target.client_id == 0) ≡ true
      → is_empty req.workflow_json ≡ false
      → lookup "temporary" ms.controllers ≡ some ws
      → r.read_json req.workflow_json ≡ none
      → lookup (renamed prefix (new_workflow "")).name ws ≡ none
      → (ms' : Managers) × (perform (temporary_of r timeout describe prefix) req ms ≡ ok ms')
        × Served ms ms' ws req (renamed prefix (new_workflow ""))
  temporary-unreadable asks no_client with_text there unread fresh =
      temporary-served asks no_client with_text there (load_temporary-unread with_text unread)
        (new_workflow-valid describe) fresh
