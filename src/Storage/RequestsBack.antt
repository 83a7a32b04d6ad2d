-- ===== src/Storage/RequestsBack.antt =====
-- What a saved request is loaded as, and what saving a report comes to: core/request.cpp and
-- tools/error_report.cpp.
use libworkflow.Prelude.{
  ℕ, suc, String, ◌≡◌, refl, ap, ◌∙◌, ◌<◌, ◌≤◌, ◌^◌, Option, none, some, List, [], ◌∷◌, ◌++◌, Bool,
  true,
}
use libworkflow.Prelude.Int.{ℤ}
use libworkflow.Prelude.Key.{string_key, int_key}
use libworkflow.Prelude.Map.{Map, lookup}
use libworkflow.Prelude.Outcome.{Outcome, ok, fault, null_pointer, deref, ◌>>=◌}
use libworkflow.Core.Context.{GroupedCtx, grouped_ctx}
use libworkflow.Core.Target.{Target}
use libworkflow.Core.Request.{Request, new_request}
use libworkflow.Tools.ErrorReport.{ErrorReport, root, child}
use libworkflow.Tools.PropertySet.Typed.{PropertySet, empty_set}
use libworkflow.Storage.Tree.{
  PropertyTree, PropertyTreeLaws, put_last, add_last, text_found, child_found,
}
use libworkflow.Storage.Keys.{to_string, read_int, read_int-to_string}
use libworkflow.Storage.Target.{
  TargetInRange, save_target, load_target, children-save_target, load_target-fields,
}
use libworkflow.Storage.Entries.{
  plain_ids, Follow, LoadBack, keys, entries, map_values, load_entries, children-save_entries,
  load_entries-overlay, overlay_last,
}
use libworkflow.Storage.Contexts.{ContextFactory, save_context, load_context}
use libworkflow.Storage.ContextsBack.{Storable, context_size, blank_context, load_context-save}
use libworkflow.Storage.Properties.{save_set, load_set}
use libworkflow.Storage.PropertiesBack.{
  SetStorable, kept_set, children-save_set, load_set-fields, overlay_set_empty,
}
use libworkflow.Storage.Reports.{
  fields_of, contexts_of, save_report, save_report_of, save_bypasses, save_parts, save_request,
  load_request,
}

-- What is kept of a request.
unfoldable pub kept_bypass : Option PropertySet → Option PropertySet
unfolding kept_set
kept_bypass none = none
kept_bypass (some s) = some (kept_set s)

unfoldable pub kept_request : Request → Request
unfolding kept_bypass kept_set
kept_request r = record r {
  bypass = kept_bypass r.bypass;
  action_bypasses = map_values kept_set r.action_bypasses;
}

abbrev pub AllSets : (PropertySet → Type 0) → Map ℤ PropertySet → Type 0
AllSets P [] = Unit
AllSets P ((k, s) ∷ m) = P s × AllSets P m

pub record RequestStorable (typed : String → Bool) (f : ContextFactory) (fuel : ℕ) (r : Request)
    : Type 0 where
  pub target : TargetInRange r.target
  pub reply : TargetInRange r.reply
  pub request_id : r.request_id < 2 ^ 128
  pub context : Storable typed f (grouped_ctx (fields_of r.context))
  pub context_size : context_size (grouped_ctx (fields_of r.context)) ≤ fuel
  pub bypasses : AllSets (SetStorable typed f fuel) r.action_bypasses
  pub bypass_order : Follow [] (keys r.action_bypasses)

contexts_of-fields_of : (g : GroupedCtx) → contexts_of (fields_of g) ≡ g
unfolding contexts_of fields_of
contexts_of-fields_of [] = refl
contexts_of-fields_of ((name, c) ∷ g) = ap (λ l. (name, c) ∷ l) (contexts_of-fields_of g)

module _ {T : Type 0} (p : PropertyTree T) (own : String → T → T) (original : ℕ → T)
    (fresh : Target) where
  -- Saving a report follows the null pointer at the start of its chain, whatever the chain.
  pub save_report-throws :
      (e : ErrorReport) (t : T) → save_report p own original fresh e t ≡ fault null_pointer
  unfolding save_report
  save_report-throws (root b) t = refl
  save_report-throws (child b parent) t = rw (save_report-throws parent p.empty)

  reported-throws :
      (bypass : Option PropertySet) (e : ErrorReport) (tree : PropertySet → T) (json : String)
      → (deref bypass >>= (λ s.
          save_report_of p own original fresh (some e) (tree s)
          >>= (λ t. ok (p.put "workflow_json" json t))))
        ≡ fault null_pointer
  reported-throws none e tree json = refl
  reported-throws (some s) e tree json = rw (save_report-throws e p.empty)

  -- A request with an error report is never saved: the null pointer to the parent of the report that
  -- started the chain is followed, unless a null bypass already was.
  pub save_request-throws :
      (r : Request) (e : ErrorReport) (t : T)
      → r.report ≡ some e
      → save_request p own original fresh r t ≡ fault null_pointer
  unfolding save_request
  save_request-throws r e t reported =
      ap
        (λ report. deref r.bypass >>= (λ s.
          save_report_of p own original fresh report (save_parts p own r s t)
          >>= (λ t'. ok (p.put "workflow_json" r.workflow_json t'))))
        reported
      ∙ reported-throws r.bypass e (λ s. save_parts p own r s t) r.workflow_json

module _ {T : Type 0} {p : PropertyTree T} (laws : PropertyTreeLaws p) (own : String → T → T)
    (typed : String → Bool)
    (writes : (type : String)
      → typed type ≡ true
      → p.get_optional "type" (own type p.empty) ≡ some type)
    (f : ContextFactory) (fuel : ℕ) where
  abbrev request_fields : Request → PropertySet → List (String × T)
  request_fields r bypass =
      ("target", save_target p r.target p.empty)
      ∷ ("reply", save_target p r.reply p.empty)
      ∷ ("request_id", p.leaf (p.uuid_text r.request_id))
      ∷ ("context", save_context p own (grouped_ctx (fields_of r.context)) p.empty)
      ∷ ("bypass", save_set p own bypass p.empty)
      ∷ ("action_bypasses", save_bypasses p own r.action_bypasses)
      ∷ ("workflow_json", p.leaf r.workflow_json)
      ∷ []

  children-save_parts :
      (r : Request) (bypass : PropertySet)
      → p.children (p.put "workflow_json" r.workflow_json (save_parts p own r bypass p.empty))
        ≡ request_fields r bypass
  unfolding save_parts lookup
  children-save_parts r bypass =
      put_last laws _
        (add_last laws _
          (add_last laws _
            (add_last laws _
              (put_last laws _ (add_last laws _ (add_last laws _ laws.children_empty refl) refl)
                refl refl)
              refl)
            refl)
          refl)
        refl refl

  load_target-save :
      (t old : Target) → TargetInRange t → load_target p (save_target p t p.empty) old ≡ ok t
  load_target-save t old range =
      load_target-fields laws t old range (children-save_target laws t laws.children_empty)

  load_set-save :
      (s : PropertySet)
      → SetStorable typed f fuel s
      → load_set p f fuel (save_set p own s p.empty) empty_set ≡ ok (kept_set s)
  load_set-save s storable =
      load_set-fields laws own typed writes f fuel s empty_set storable
        (children-save_set laws own typed writes f fuel s laws.children_empty)
      ∙ ap ok (overlay_set_empty laws own typed writes f fuel s storable)

  load_group-save :
      (g : GroupedCtx)
      → Storable typed f (grouped_ctx (fields_of g))
      → context_size (grouped_ctx (fields_of g)) ≤ fuel
      → load_context p f fuel
          (save_context p own (grouped_ctx (fields_of g)) p.empty)
          (grouped_ctx (fields_of []))
        ≡ ok (grouped_ctx (fields_of g))
  unfolding blank_context fields_of
  load_group-save g storable enough =
      load_context-save laws own typed writes f fuel (grouped_ctx (fields_of g)) enough storable

  bypasses_back :
      (m : Map ℤ PropertySet)
      → AllSets (SetStorable typed f fuel) m
      → LoadBack to_string read_int
          (λ s. save_set p own s p.empty)
          (λ item. load_set p f fuel item empty_set >>= (λ s. ok (some s)))
          kept_set
          m
  bypasses_back [] all = tt
  bypasses_back ((i, s) ∷ m) all =
      (read_int-to_string i, rw (load_set-save s all.0), bypasses_back m all.1)

  load_bypasses-save :
      (m : Map ℤ PropertySet)
      → AllSets (SetStorable typed f fuel) m
      → Follow [] (keys m)
      → load_entries read_int
          (λ item. load_set p f fuel item empty_set >>= (λ s. ok (some s)))
          (p.children (save_bypasses p own m))
          []
        ≡ ok (map_values kept_set m)
  unfolding save_bypasses
  load_bypasses-save m all order =
      ap
        (λ items.
          load_entries read_int (λ item. load_set p f fuel item empty_set >>= (λ s. ok (some s)))
            items [])
        (children-save_entries laws to_string (λ s. save_set p own s p.empty) m p.empty
            (plain_ids m)
          ∙ ap (λ l. l ++ entries to_string (λ s. save_set p own s p.empty) m) laws.children_empty)
      ∙ load_entries-overlay to_string read_int (λ s. save_set p own s p.empty)
          (λ item. load_set p f fuel item empty_set >>= (λ s. ok (some s))) kept_set m []
          (bypasses_back m all)
      ∙ ap ok (overlay_last kept_set m [] order)

  pub load_request-fields :
      (fresh : Target) (new : Request) (t u : Target) (r : Request) (s : PropertySet) {saved : T}
      → RequestStorable typed f fuel r
      → SetStorable typed f fuel s
      → r.bypass ≡ some s
      → r.report ≡ none
      → p.children saved ≡ request_fields r s
      → load_request p f fresh new (suc fuel) saved (new_request t u) ≡ ok (kept_request r)
  unfolding load_request new_request kept_request kept_bypass lookup
  load_request-fields fresh new t u r s {saved} storable set bypassed unreported holds = rw (
    child_found laws {k = "target"} holds refl refl,
    child_found laws {k = "reply"} holds refl refl,
    text_found laws {k = "request_id"} holds refl refl,
    child_found laws {k = "context"} holds refl refl,
    child_found laws {k = "bypass"} holds refl refl,
    child_found laws {k = "action_bypasses"} holds refl refl,
    laws.get_child "report" saved refl ∙ ap (lookup "report") holds,
    text_found laws {k = "workflow_json"} holds refl refl,
    load_target-save r.target t storable.target,
    load_target-save r.reply u storable.reply,
    laws.uuid r.request_id storable.request_id,
    load_group-save r.context storable.context storable.context_size,
    contexts_of-fields_of r.context,
    load_set-save s set,
    load_bypasses-save r.action_bypasses storable.bypasses storable.bypass_order,
    bypassed,
    unreported,
  )

  -- A request without a report, whose bypass is set and whose parts are in the ranges of their types,
  -- is saved, and what was saved is loaded into a new request as the request it was, but for what a
  -- property set loses: the types of the properties and the contexts that are their values. The
  -- factory must make the contexts that are stored, the names in use are not empty and have no dots,
  -- and the context classes of the application that are in use write their type, which a property
  -- set does not.
  pub request-back :
      (original : ℕ → T) (fresh t u : Target) (new r : Request) (s : PropertySet)
      → RequestStorable typed f fuel r
      → SetStorable typed f fuel s
      → r.bypass ≡ some s
      → r.report ≡ none
      → (save_request p own original fresh r p.empty
          >>= (λ saved. load_request p f fresh new (suc fuel) saved (new_request t u)))
        ≡ ok (kept_request r)
  unfolding save_request
  request-back original fresh t u new r s storable set bypassed unreported =
      let run : Option PropertySet → Option ErrorReport → Outcome Request = λ bypass report.
        (deref bypass >>= (λ s'.
          save_report_of p own original fresh report (save_parts p own r s' p.empty)
          >>= (λ saved. ok (p.put "workflow_json" r.workflow_json saved))))
        >>= (λ saved. load_request p f fresh new (suc fuel) saved (new_request t u)) in
      ap (λ bypass. run bypass r.report) bypassed
      ∙ ap (λ report. run (some s) report) unreported
      ∙ load_request-fields fresh new t u r s storable set bypassed unreported
          (children-save_parts r s)
