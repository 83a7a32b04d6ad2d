-- ===== src/Storage/Tests.antt =====
-- What is saved and loaded, at concrete values.
use libworkflow.Prelude.{ℕ, String, ◌≡◌, refl, true, some, [], ◌∷◌, map, arith, Bool, false, not}
use libworkflow.Prelude.Int.{pos, negsuc, eqb_ℤ, ltb_ℤ}
use libworkflow.Prelude.Key.{string_key, int_key, ◌==◌ as is_key}
use libworkflow.Prelude.Map.{lookup}
use libworkflow.Prelude.Outcome.{ok, fault, null_pointer, ◌>>=◌}
use libworkflow.Core.Context.{Context, get_type, list_ctx, skip_ctx, nil, cons}
use libworkflow.Core.Target.{Target, new_target}
use libworkflow.Core.Request.{Request, new_request}
use libworkflow.Tools.ErrorReport.{new_report}
use libworkflow.Tools.PropertySet.Typed.{PropertySet, uint}
use libworkflow.Core.Action.Contract.{ActionData, new_action}
use libworkflow.Core.Action.Wrapper.{
  Action, unwrapped, finish_wrapper, cleanup_wrapper, plain_action, next_methods, default_methods,
}
use libworkflow.Core.StateMachine.Layout.{StateMachine, list_at, wrapped, wrapper_for}
use libworkflow.Core.Workflow.{Workflow, new_workflow}
use libworkflow.Storage.Machine.{ActionFactory, create_action, own_fields, save_action}
use libworkflow.Storage.MachineBack.{MachineStorable, restored}
use libworkflow.Storage.Replayed.{Has}
use libworkflow.Core.Bindings.{set_from_action_id}
use libworkflow.Storage.Workflow.{save_workflow, load_workflow, ReadBack, workflow-back}
use libworkflow.Storage.Wrapped.{save_action-wrapped}
use libworkflow.Storage.Tree.{not_negative, negative}
use libworkflow.Storage.Contexts.{ContextFactory, create_context, save_context, load_context}
use libworkflow.Storage.ContextsBack.{Storable, context_size, blank_context, load_context-save}
use libworkflow.Storage.PropertiesBack.{SetStorable}
use libworkflow.Storage.Reports.{fields_of, save_request, load_request}
use libworkflow.Storage.Refs.{Refs, no_refs, save_refs, load_refs, refs-back}
use libworkflow.Storage.RequestsBack.{
  RequestStorable, kept_request, save_request-throws, request-back,
}
use libworkflow.Storage.Samples.{Node, sample_tree, sample_laws}

-- The classes of the application write their type and no more; a property set does not write it.
abbrev writes_type : String → Bool
writes_type type = not (is_key {K = String} type "PropertySet")

abbrev save_type : Bool → String → Node → Node
save_type true type root = sample_tree.put "type" type root
save_type false type root = root

abbrev plain_save : String → Node → Node
plain_save type root = save_type (writes_type type) type root

type_written :
    (written : Bool) (type : String)
    → written ≡ true
    → sample_tree.get_optional "type" (save_type written type sample_tree.empty) ≡ some type
unfolding lookup
type_written true type h = refl
type_written false type h = absurd (cc)

plain_writes :
    (type : String)
    → writes_type type ≡ true
    → sample_tree.get_optional "type" (plain_save type sample_tree.empty) ≡ some type
plain_writes type h = type_written (writes_type type) type h

abbrev some_contexts : ContextFactory
some_contexts = ("List", list_ctx "List" nil) ∷ ("SkipCtx", skip_ctx) ∷ []

abbrev some_list : Context
some_list = list_ctx "List" (cons skip_ctx (cons (list_ctx "List" nil) nil))

load_context-save_example :
    load_context sample_tree some_contexts 3
      (save_context sample_tree plain_save some_list sample_tree.empty)
      (list_ctx "List" nil)
    ≡ ok some_list
unfolding lookup Storable context_size blank_context create_context get_type
load_context-save_example =
    load_context-save sample_laws plain_save writes_type plain_writes some_contexts 3 some_list
      (omega arith) (refl, tt, (refl, tt, tt))

abbrev some_set : PropertySet
some_set = record {
  guarded = true;
  uint_values =
      ("limit", record { key = "limit"; description = ""; exposed = true; type = uint; value = 5 })
      ∷ [];
  double_values = [];
  bool_values = [];
  string_values = [];
  custom_values = [];
}

some_set-Storable : {fuel : ℕ} → SetStorable writes_type some_contexts fuel some_set
some_set-Storable = record {
  uint_order = ((refl, tt), (tt, tt));
  double_order = (tt, tt);
  string_order = (tt, tt);
  bool_order = (tt, tt);
  custom_order = (tt, tt);
  uint_range = (omega arith, tt);
  double_range = tt;
  readable = tt;
}

abbrev some_target : Target
some_target = record (new_target "default" "sort" 7 2) { action = pos 4 }

abbrev some_request : Request
some_request = record (new_request some_target (new_target "default" "" 8 0)) {
  context = ("list", some_list) ∷ [];
  bypass = some some_set;
  action_bypasses = (pos 4, some_set) ∷ [];
}

some_request-Storable : RequestStorable writes_type some_contexts 4 some_request
unfolding new_request new_target lookup Storable context_size blank_context fields_of create_context
    get_type
some_request-Storable = record {
  target = record {
    identifier = omega arith;
    client_id = omega arith;
    execution_level = omega arith;
    action = not_negative (omega arith);
  };
  reply = record {
    identifier = omega arith;
    client_id = omega arith;
    execution_level = omega arith;
    action = negative (omega arith);
  };
  request_id = omega arith;
  context = (refl, tt, refl, (refl, tt, (refl, tt, tt)), tt);
  context_size = omega arith;
  bypasses = (some_set-Storable, tt);
  bypass_order = (tt, tt);
}

request-back_example :
    (save_request sample_tree plain_save
        (λ uuid. sample_tree.empty)
        some_target
        some_request
        sample_tree.empty
      >>= (λ saved.
          load_request sample_tree some_contexts some_target some_request 5 saved
            (new_request (new_target "" "" 1 1) (new_target "" "" 2 1))))
    ≡ ok (kept_request some_request)
unfolding new_request
request-back_example =
    request-back sample_laws plain_save writes_type plain_writes some_contexts 4
      (λ uuid. sample_tree.empty) some_target (new_target "" "" 1 1) (new_target "" "" 2 1)
      some_request some_request some_set some_request-Storable some_set-Storable refl refl

abbrev failed_request : Request
failed_request = record some_request { report = some (new_report some_target "key" "message") }

save_request-throws_example :
    save_request sample_tree plain_save
      (λ uuid. sample_tree.empty)
      some_target
      failed_request
      sample_tree.empty
    ≡ fault null_pointer
save_request-throws_example =
    save_request-throws sample_tree plain_save (λ uuid. sample_tree.empty) some_target
      failed_request (new_report some_target "key" "message") sample_tree.empty refl

abbrev ender : ActionData
ender = record (new_action "NextAction") { properties = some_set }

save_action-wrapped_example :
    save_action sample_tree plain_save
      (record { wrapper = finish_wrapper; fields = ender; methods = next_methods })
      sample_tree.empty
    ≡ save_action sample_tree plain_save
        (record {
          wrapper = cleanup_wrapper;
          fields = new_action "NextAction";
          methods = next_methods;
        })
        sample_tree.empty
unfolding new_action
save_action-wrapped_example =
    save_action-wrapped sample_tree plain_save
      (record { wrapper = finish_wrapper; fields = ender; methods = next_methods })
      (record {
        wrapper = cleanup_wrapper;
        fields = new_action "NextAction";
        methods = next_methods;
      })
      sample_tree.empty refl refl refl

-- A counter of the application, its builder, and a workflow that counts.
abbrev counter : Action
counter = plain_action (record (new_action "Counter") { properties = some_set }) default_methods

abbrev some_actions : ActionFactory
some_actions = ("Counter", plain_action (new_action "Counter") default_methods) ∷ []

abbrev stored : Workflow
stored = record {
  name = "count";
  machine = record {
    actions = (pos 0, counter) ∷ [];
    outputs =
        (
          pos 0,
          record {
            from_action_id = pos 0;
            from_action_output = "n";
            to_action_id = negsuc 3;
            to_action_input = "n";
          }
              ∷ [],
        )
        ∷ [];
    inputs_map = [];
    exposed_properties = (pos 0, ("limit", "limit") ∷ []) ∷ [];
    starters = record { workflow_input = "n"; action_id = pos 0; action_input = "n" } ∷ [];
  };
  sessions = [];
}

stored-Storable : MachineStorable writes_type some_contexts 3 stored.machine
unfolding lookup own_fields new_action plain_action
stored-Storable = record {
  actions = (record { action_id = not_negative (omega arith); properties = some_set-Storable }, tt);
  actions_once = (refl, tt);
  outputs = (((not_negative (omega arith), negative (omega arith)), tt), tt);
  outputs_once = (refl, tt);
  starters = (not_negative (omega arith), tt);
  exposed = (((refl, tt), (tt, tt)), tt);
  exposed_once = (refl, tt);
}

workflow-back_example :
    (back : StateMachine) × (load_workflow sample_tree some_contexts 3 some_actions
        (save_workflow sample_tree plain_save stored 60 sample_tree.empty)
        (new_workflow "")
        0
      ≡ ok (record (new_workflow "") { name = "count"; machine = back }, 60))
    × ReadBack stored.machine (new_workflow "").machine back
    × Has back
        (pos 0)
        (wrapped unwrapped
          (pos 0)
          (restored (plain_action (new_action "Counter") default_methods) counter))
        (map (set_from_action_id (pos 0)) (list_at (pos 0) stored.machine.outputs))
unfolding new_workflow lookup create_action wrapper_for eqb_ℤ ltb_ℤ
workflow-back_example =
    workflow-back sample_laws plain_save writes_type plain_writes some_contexts 3 some_actions
      stored (new_workflow "") 60 0 (pos 0) counter
      (plain_action (new_action "Counter") default_methods) (omega arith) stored-Storable refl refl
      refl

abbrev some_refs : Refs
some_refs = record {
  actions = ("Counter", "a counter") ∷ ("Switch", "a switch") ∷ [];
  contexts = ("List", "a list") ∷ [];
  workflows = ("default", ("count", "a workflow") ∷ ("split", "another") ∷ []) ∷ [];
}

refs-back_example :
    load_refs sample_tree (save_refs sample_tree some_refs sample_tree.empty) no_refs ≡ some_refs
refs-back_example =
    refs-back sample_laws some_refs
      (record { plain = (refl, (refl, tt)); order = (tt, ((refl, refl, tt), tt)) })
      (record { plain = (refl, tt); order = (tt, tt) })
      ((record { plain = (refl, (refl, tt)); order = (tt, ((refl, refl, tt), tt)) }), (λ e. cc), tt)
      (refl, tt) (tt, tt)
