-- ===== src/Storage/Reports.antt =====
-- tools/error_report.cpp and core/request.cpp: `save` and `load`. A report may hold the request
-- that failed, and a request the report of its failure: each calls the other, on fuel.
use libworkflow.Prelude.{ℕ, suc, zero, String, Option, none, some, [], ◌∷◌}
use libworkflow.Prelude.Int.{ℤ}
use libworkflow.Prelude.Key.{string_key, int_key}
use libworkflow.Prelude.Map.{Map}
use libworkflow.Prelude.Outcome.{Outcome, ok, fault, out_of_fuel, null_pointer, deref, ◌>>=◌}
use libworkflow.Core.Context.{Context, Fields, GroupedCtx, grouped_ctx, end, field}
use libworkflow.Core.Target.{Target}
use libworkflow.Core.Request.{Request, get_id}
use libworkflow.Tools.ErrorReport.{ErrorReport, Body, root, child, empty_report}
use libworkflow.Tools.PropertySet.Typed.{PropertySet, empty_set}
use libworkflow.Storage.Tree.{PropertyTree, get_opt}
use libworkflow.Storage.Keys.{to_string, read_int}
use libworkflow.Storage.Target.{save_target, load_target}
use libworkflow.Storage.Entries.{save_entries, load_entries}
use libworkflow.Storage.Contexts.{ContextFactory, save_context, load_context}
use libworkflow.Storage.Properties.{save_set, load_set}

-- The contexts of a request are those of a group.
unfoldable pub fields_of : GroupedCtx → Fields
fields_of [] = end
fields_of ((name, c) ∷ g) = field name c (fields_of g)

unfoldable pub contexts_of : Fields → GroupedCtx
contexts_of end = []
contexts_of (field name c fs) = (name, c) ∷ contexts_of fs

abbrev pub group_of : Context → GroupedCtx
group_of (grouped_ctx fs) = contexts_of fs
group_of _ = []

-- A target that no constructor was given is a new one.
abbrev pub or_new : Target → Option Target → Target
or_new fresh none = fresh
or_new fresh (some t) = t

module _ {T : Type 0} (p : PropertyTree T) (own : String → T → T) where
  abbrev pub put_original : (ℕ → T) → Option ℕ → T → T
  put_original original none t = t
  put_original original (some uuid) t = p.add_child "original" (original uuid) t

  -- `PUT_CHILD(root, *parent, "parent")` follows the pointer to the parent of every report.
  -- `original` gives the tree of the request that a uuid names.
  unfoldable pub save_report : (original : ℕ → T) → (fresh : Target) → ErrorReport → T → Outcome T
  unfolding save_target
  save_report original fresh (root b) t = fault null_pointer
  save_report original fresh (child b parent) t = do
    saved ← save_report original fresh parent p.empty
    ok (
        put_original original b.original (
          p.add_child "parent" saved (
            p.put "key" b.error_key (
              p.put "message" b.error_message
                (p.add_child "target" (save_target p (or_new fresh b.target) p.empty) t)))))

  abbrev pub save_report_of :
      (original : ℕ → T) → (fresh : Target) → Option ErrorReport → T → Outcome T
  save_report_of original fresh none t = ok t
  save_report_of original fresh (some e) t =
      save_report original fresh e p.empty >>= (λ saved. ok (p.add_child "error_report" saved t))

  unfoldable pub save_bypasses : Map ℤ PropertySet → T
  unfolding save_entries save_set
  save_bypasses m = save_entries p to_string (λ s. save_set p own s p.empty) m p.empty

  -- What comes before the report.
  unfoldable pub save_parts : Request → PropertySet → T → T
  unfolding save_target save_context save_bypasses
  save_parts r bypass t = p.add_child "action_bypasses" (save_bypasses r.action_bypasses) (
      p.add_child "bypass" (save_set p own bypass p.empty) (
        p.add_child "context" (save_context p own (grouped_ctx (fields_of r.context)) p.empty) (
          p.put "request_id" (p.uuid_text r.request_id) (
            p.add_child "reply" (save_target p r.reply p.empty)
              (p.add_child "target" (save_target p r.target p.empty) t)))))

  unfoldable pub save_request : (original : ℕ → T) → (fresh : Target) → Request → T → Outcome T
  unfolding save_parts save_report
  save_request original fresh r t = do
    bypass ← deref r.bypass
    reported ← save_report_of original fresh r.report (save_parts r bypass t)
    ok (p.put "workflow_json" r.workflow_json reported)

abbrev pub body_of : ErrorReport → Body
body_of (root b) = b
body_of (child b parent) = b

abbrev pub parent_of : ErrorReport → Option ErrorReport
parent_of (root b) = none
parent_of (child b parent) = some parent

abbrev pub report_with : Body → Option ErrorReport → ErrorReport
report_with b none = root b
report_with b (some parent) = child b parent

-- The macro `GET_CHILD`: a member is loaded from a child that is there.
abbrev pub load_child {ℓ κ} : {T : Type ℓ} {A : Type κ} → Option T → A → (T → Outcome A) → Outcome A
load_child none old load = ok old
load_child (some t) old load = load t

module _ {T : Type 0} (p : PropertyTree T) (f : ContextFactory) (fresh : Target) where
  unfoldable pub load_report : (T → Outcome ℕ) → ℕ → T → ErrorReport → Outcome ErrorReport
  unfolding load_target empty_report
  load_report load_original zero t e = fault out_of_fuel
  load_report load_original (suc fuel) t e = do
    target ←
        load_child (p.get_child_optional "target" t) (body_of e).target
          (λ item. load_target p item (or_new fresh (body_of e).target) >>= (λ new. ok (some new)))
    parent ←
        load_child (p.get_child_optional "parent" t) (parent_of e)
          (λ item. load_report load_original fuel item empty_report >>= (λ new. ok (some new)))
    original ←
        load_child (p.get_child_optional "original" t) (body_of e).original
          (λ item. load_original item >>= (λ uuid. ok (some uuid)))
    ok (
        report_with
          (record {
            target = target;
            error_message = get_opt (body_of e).error_message (p.get_optional "message" t);
            error_key = get_opt (body_of e).error_key (p.get_optional "key" t);
            original = original;
          })
          parent)

  abbrev pub load_set_at : ℕ → Option PropertySet → T → Outcome (Option PropertySet)
  load_set_at fuel bypass item =
      deref bypass >>= (λ s. load_set p f fuel item s >>= (λ new. ok (some new)))

  -- The member of `Request` that holds what `new Request()` gives is `new`.
  unfoldable pub load_request : (new : Request) → ℕ → T → Request → Outcome Request
  unfolding load_target load_context load_set load_entries load_report empty_set empty_report get_id
  load_request new zero t r = fault out_of_fuel
  load_request new (suc fuel) t r = do
    target ←
        load_child (p.get_child_optional "target" t) r.target (λ item. load_target p item r.target)
    reply ← load_child (p.get_child_optional "reply" t) r.reply (λ item. load_target p item r.reply)
    request_id ← p.uuid_of (get_opt "" (p.get_optional "request_id" t))
    context ← load_child (p.get_child_optional "context" t) r.context (λ item.
        load_context p f fuel item (grouped_ctx (fields_of r.context)) >>= (λ c. ok (group_of c)))
    bypass ← load_child (p.get_child_optional "bypass" t) r.bypass (load_set_at fuel r.bypass)
    action_bypasses ←
        load_child (p.get_child_optional "action_bypasses" t) r.action_bypasses (λ items.
          load_entries read_int (λ item. load_set p f fuel item empty_set >>= (λ s. ok (some s)))
            (p.children items) r.action_bypasses)
    report ← load_child (p.get_child_optional "report" t) r.report (λ item.
        load_report (λ old. load_request new fuel old new >>= (λ loaded. ok (get_id loaded))) fuel
          item empty_report
        >>= (λ e. ok (some e)))
    ok (record {
      target = target;
      reply = reply;
      request_id = request_id;
      context = context;
      bypass = bypass;
      action_bypasses = action_bypasses;
      report = report;
      workflow_json = get_opt r.workflow_json (p.get_optional "workflow_json" t);
    })
