-- ===== src/Actions/Requests.antt =====
-- Which requests ExecuteWorkflow makes: actions/communication/execute_workflow.cpp.
use libworkflow.Prelude.{
  String, ◌≡◌, refl, ◌∙◌, Bool, true, false, Option, none, some, [], ◌∷◌, if◌then◌else◌,
}
use libworkflow.Prelude.Int.{ℤ}
use libworkflow.Prelude.Key.{int_key}
use libworkflow.Prelude.Map.{lookup, insert}
use libworkflow.Prelude.Outcome.{Outcome, ok}
use libworkflow.Core.Target.{Target, default_action, reply}
use libworkflow.Core.Context.{Context}
use libworkflow.Core.Request.{Request}
use libworkflow.Core.Session.{Session, get_bypass}
use libworkflow.Core.Action.Contract.{ActionData}
use libworkflow.Core.Action.Properties.{resolve, bool_property, string_property, custom_property}
use libworkflow.Core.Action.Results.{
  Performed, done, wait, prepare_sync_request, execute_sync_request, result_wait, result_done,
}
use libworkflow.Tools.PropertySet.Kinds.{
  get_bool_property, get_string_property, get_custom_property,
}
use libworkflow.Tools.PropertySet.Typed.{PropertySet, empty_set, has_property}
use libworkflow.Actions.ExecuteWorkflow.{perform_execute, perform_by, new_empty_request, address}

-- A read may add an empty bypass for the action, and changes nothing else of these.
record Reads (s s' : Session) : Type 0 where
  same_request : s'.request ≡ s.request
  same_bypass : s'.bypass ≡ s.bypass
  same_level : s'.current_execution_level ≡ s.current_execution_level

Reads-trans : {r s t : Session} → Reads r s → Reads s t → Reads r t
Reads-trans a b = record {
  same_request = b.same_request ∙ a.same_request;
  same_bypass = b.same_bypass ∙ a.same_bypass;
  same_level = b.same_level ∙ a.same_level;
}

get_bypass-Reads : (id : ℤ) (s : Session) → Reads s (get_bypass id s).0
unfolding get_bypass
get_bypass-Reads id s =
    elim (lookup id s.action_bypasses)
      as (λ o.
        Reads s
          (elim o as (λ x. Session × PropertySet) [
            | none ↦
                (record s { action_bypasses = insert id empty_set s.action_bypasses }, empty_set)
            | some b ↦ (s, b)
          ]).0) [
            | none ↦ record { same_request = refl; same_bypass = refl; same_level = refl }
            | some b ↦ record { same_request = refl; same_bypass = refl; same_level = refl }
          ]

branches :
    {A V : Type 0} (f : V → A) (c d e : Bool) (x y z w : V)
    → (if c then Outcome.ok (f x) else if d then ok (f y) else if e then ok (f z) else ok (f w))
      ≡ ok (f (if c then x else if d then y else if e then z else w))
branches f true d e x y z w = refl
branches f false true e x y z w = refl
branches f false false true x y z w = refl
branches f false false false x y z w = refl

-- Where the action has its state machine and the session a bypass, a property is read.
resolve-ok :
    {T : Type 0} (get : PropertySet → String → T → T × Bool) (a : ActionData) (s : Session)
    (key : String) (default : T) {general : PropertySet}
    → a.has_machine ≡ true
    → s.bypass ≡ some general
    → (s' : Session) × (v : T) × (resolve (λ p k d. ok (get p k d).0) a s key default ≡ ok (s', v))
      × Reads s s'
unfolding resolve
resolve-ok get a s key default {general} linked bypassed =
    let s' : Session = (get_bypass a.action_id s).0 in
    let own : PropertySet = (get_bypass a.action_id s).1 in
    let kept : Reads s s' = get_bypass-Reads a.action_id s in
    (
      s',
      if has_property own key
          then (get own key default).0
          else if has_property general key
          then (get general key default).0
          else if has_property a.properties key
          then (get a.properties key default).0
          else default,
      rw (kept.same_bypass ∙ bypassed, linked)
          (branches (λ v. (s', v)) (has_property own key) (has_property general key)
            (has_property a.properties key) (get own key default).0 (get general key default).0
            (get a.properties key default).0 default),
      kept,
    )

-- A request that has been addressed: from the names read, and otherwise the request it was.
record Addressed (a : ActionData) (s : Session) (req q : Request) : Type 0 where
  same_reply : q.reply ≡ req.reply
  kind : q.target.target ≡ default_action
  controller : (s' : Session) × (string_property a s "controller" "" ≡ ok (s', q.target.controller))

module _ (cast : Option Context → Option PropertySet) (a : ActionData) where
  address-ok :
      (s : Session) (req : Request) {general : PropertySet}
      → a.has_machine ≡ true
      → s.bypass ≡ some general
      → (s' : Session) × (q : Request) × (address cast a s req ≡ ok (s', q))
        × Addressed a s req q
        × Reads s s'
  unfolding address string_property custom_property
  address-ok s req linked bypassed =
      let (s1, c, read1, kept1) =
        resolve-ok get_string_property a s "controller" "" linked bypassed in
      let (s2, w, read2, kept2) =
        resolve-ok get_string_property a s1 "workflow" "" linked (kept1.same_bypass ∙ bypassed) in
      let (s3, x, read3, kept3) =
        resolve-ok get_custom_property a s2 "customization" none linked
          (kept2.same_bypass ∙ kept1.same_bypass ∙ bypassed) in
      (
        s3,
        record req {
          target = record req.target { controller = c; workflow = w; target = default_action };
          bypass = cast x;
        },
        rw (read1, read2, read3),
        record { same_reply = refl; kind = refl; controller = (s1, read1) },
        Reads-trans kept1 (Reads-trans kept2 kept3),
      )

  -- What `perform` hands back, by whether the action is synchronous.
  pub record Asks (s : Session) (p : Performed) : Type 0 where
    pub question : Request
    pub sent : p.sent ≡ question ∷ []
    pub named :
        (s' : Session) × (string_property a s "controller" "" ≡ ok (s', question.target.controller))
    pub kind : question.target.target ≡ default_action
    pub back : question.reply.target ≡ reply
    pub back_to : question.reply.action ≡ a.action_id
    pub level : question.reply.execution_level ≡ s.current_execution_level
    pub waits : p.result.type ≡ wait

  pub record Silent (p : Performed) : Type 0 where
    pub nothing_sent : p.sent ≡ []
    pub is_done : p.result.type ≡ done

  abbrev pub Performs : Bool → Session → Performed → Type 0
  Performs true s p = Asks s p
  Performs false s p = Silent p

  abbrev prepared : (original req : Request) → Session → Request
  prepared original req s = record req {
    reply = record original.target {
      execution_level = s.current_execution_level;
      action = a.action_id;
      target = reply;
    };
    request_id = original.request_id;
  }

  prepare-ok :
      (s : Session) (original req : Request)
      → s.request ≡ some original
      → prepare_sync_request a s req ≡ ok (prepared original req s)
  unfolding prepare_sync_request
  prepare-ok s original req asked = rw (asked)

  perform_by-ok :
      (t u : Target) (v : Bool) (s : Session) {general : PropertySet} {original : Request}
      → a.has_machine ≡ true
      → s.bypass ≡ some general
      → s.request ≡ some original
      → (p : Performed) × (perform_by cast t u a s v ≡ ok p) × Performs v s p
  unfolding perform_by execute_sync_request result_wait
  perform_by-ok t u true s {general} {original} linked bypassed asked =
      let (s', q, addressed, at_names, kept) =
        address-ok s (prepared original (new_empty_request t u) s) linked bypassed in
      (
        record { session = s'; sent = prepared original q s' ∷ []; result = result_wait a },
        rw (
          prepare-ok s original (new_empty_request t u) asked,
          addressed,
          prepare-ok s' original q (kept.same_request ∙ asked),
        ),
        record {
          question = prepared original q s';
          sent = refl;
          named = at_names.controller;
          kind = at_names.kind;
          back = refl;
          back_to = refl;
          level = kept.same_level;
          waits = refl;
        },
      )
  perform_by-ok t u false s linked bypassed asked =
      let (s', q, addressed, at_names, kept) =
        address-ok s (new_empty_request t u) linked bypassed in
      (
        record { session = s'; sent = []; result = result_done a },
        rw (addressed),
        record { nothing_sent = refl; is_done = refl },
      )

  -- Where the action has its state machine, as one that `addAction` does not wrap has, and the session
  -- its request and a bypass, `perform` comes back, and as the property "sync"
  -- reads: if it is set, one request is sent, to the controller that the property names; it starts a
  -- workflow and is to be answered to this action at the level of the session, and the action waits.
  -- If it is not set, the action is done and no request has been sent.
  pub perform_execute-sends :
      (t u : Target) (s : Session) {general : PropertySet} {original : Request}
      → a.has_machine ≡ true
      → s.bypass ≡ some general
      → s.request ≡ some original
      → (s' : Session) × (sync : Bool) × (p : Performed) × (bool_property a s "sync" false
          ≡ ok (s', sync))
        × (perform_execute cast t u a s ≡ ok p)
        × Performs sync s' p
  unfolding perform_execute bool_property
  perform_execute-sends t u s linked bypassed asked =
      let (s', sync, read, kept) = resolve-ok get_bool_property a s "sync" false linked bypassed in
      let (p, came, does) =
        perform_by-ok t u sync s' linked (kept.same_bypass ∙ bypassed)
          (kept.same_request ∙ asked) in
      (s', sync, p, read, rw read came, does)
