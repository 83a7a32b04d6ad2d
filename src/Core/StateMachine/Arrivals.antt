-- ===== src/Core/StateMachine/Arrivals.antt =====
-- What a request does to a session that has started: `execute` (core/state_machine.cpp).
use libworkflow.Prelude.{
  ℕ, ◌≡◌, refl, sym, ap, ◌∙◌, inl, inr, Bool, true, false, ◌||◌, Option, none, some, arith,
  if◌then◌else◌, Option-cases, ◌==◌, ==_iff, subst,
}
use libworkflow.Prelude.Int.{eqb_ℤ}
use libworkflow.Prelude.Key.{int_key}
use libworkflow.Prelude.Map.{lookup}
use libworkflow.Prelude.Outcome.{
  Outcome, ok, fault, null_pointer, deref, at, ◌>>=◌, >>=-eq-ok, ok_injective,
}
use libworkflow.Core.Target
use libworkflow.Core.Target.{TargetAction}
use libworkflow.Core.Action.Contract.{ActionData}
use libworkflow.Core.Request.{Request, create_reply}
use libworkflow.Core.Session
use libworkflow.Core.Session.{Session, push_request, get_status, waiting, ExecutionStatus}
use libworkflow.Core.Action.Results.{prepare_sync_request}
use libworkflow.Core.Action.Wrapper.{Action}
use libworkflow.Core.StateMachine.Layout.{StateMachine}
use libworkflow.Core.StateMachine.Schedule.{add_to_next}
use libworkflow.Core.StateMachine.Execution.{Run, with_session}
use libworkflow.Core.StateMachine.Entry.{
  execute, is_fresh, is_waiting, deliver, switch_to, dispatch_request, reply_to_action,
  status_received, interrupt_received,
}
use libworkflow.Core.StateMachine.Built.{Built, BuiltKeeping, is_interrupt}
use libworkflow.Core.StateMachine.Specials.{BuiltKeeping-no_interrupt, Built-no_status}

abbrev pub started : Request → Run → Run
started request r = with_session r (push_request request r.session)

pushed-fresh :
    (request : Request) (r : Run) → is_fresh (push_request request r.session) ≡ is_fresh r.session
unfolding push_request
pushed-fresh request r = ground (arith, Option-cases r.session.request)

execute-started :
    (fuel : ℕ) (m : StateMachine) (request : Request) (r : Run)
    → is_fresh r.session ≡ false
    → execute fuel m request r
      ≡ dispatch_request request.target.target fuel m request (started request r)
unfolding execute
execute-started fuel m request r h = rw (pushed-fresh request r ∙ h)

pub execute-as :
    (k : TargetAction) (fuel : ℕ) (m : StateMachine) (request : Request) (r : Run)
    → is_fresh r.session ≡ false
    → request.target.target ≡ k
    → execute fuel m request r ≡ dispatch_request k fuel m request (started request r)
execute-as k fuel m request r h t =
    execute-started fuel m request r h
    ∙ ap (λ a. dispatch_request a fuel m request (started request r)) t

pub pushed-level :
    (request : Request) (s : Session)
    → (push_request request s).current_execution_level ≡ s.current_execution_level
unfolding push_request
pushed-level request s = ground (arith, Option-cases s.request)

pushed-status : (request : Request) (s : Session) → (push_request request s).status ≡ s.status
unfolding push_request
pushed-status request s = ground (arith, Option-cases s.request)

-- In a machine built from `init`, a status request to a session that has started is recorded in
-- the session, and nothing else happens.
pub status_request-ignored :
    (fuel : ℕ) (m : StateMachine) (request : Request) (r : Run)
    → Built m
    → is_fresh r.session ≡ false
    → request.target.target ≡ Target.status
    → execute fuel m request r ≡ ok (true, with_session r (push_request request r.session))
unfolding dispatch_request status_received
status_request-ignored fuel m request r b h t =
    rw (execute-started fuel m request r h, t) (rw (Built-no_status b, status_received))

-- In a machine built from `init`, whatever actions are added under other identifiers than that of
-- `Interrupt`, an interrupt request to a session that has started follows a null pointer: `init`
-- registers no `Interrupt` action.
pub interrupt_request-faults :
    (fuel : ℕ) (m : StateMachine) (request : Request) (r : Run)
    → BuiltKeeping is_interrupt m
    → is_fresh r.session ≡ false
    → request.target.target ≡ Target.interrupt
    → execute fuel m request r ≡ fault null_pointer
unfolding dispatch_request interrupt_received switch_to add_to_next eqb_ℤ
interrupt_request-faults fuel m request r b h t =
    rw (execute-started fuel m request r h, t) (rw (BuiltKeeping-no_interrupt b))

-- Who takes a reply.
abbrev pub Taken : ℕ → StateMachine → Request → Run → Run → Type 0
Taken fuel m request r r' =
    (lookup request.target.action r.session.status ≡ some waiting)
    × ((act : Action) × (lookup request.target.action m.actions ≡ some act)
        × (deliver fuel m act request r ≡ ok (true, r')))

waiting_status :
    (o : Option ExecutionStatus) (x : Outcome (Bool × Run)) (r : Run) {r' : Run}
    → (at o >>= λ e. if is_waiting e then x else ok (false, r)) ≡ ok (true, r')
    → (o ≡ some waiting) × (x ≡ ok (true, r'))
waiting_status none x r e = absurd (cc)
waiting_status (some waiting) x r e = (refl, e)
waiting_status (some Session.unplanned) x r e = absurd (cc)
waiting_status (some Session.pending) x r e = absurd (cc)
waiting_status (some Session.planned) x r e = absurd (cc)
waiting_status (some Session.skipped) x r e = absurd (cc)
waiting_status (some Session.async) x r e = absurd (cc)
waiting_status (some Session.done) x r e = absurd (cc)

reply_to_action-Taken :
    (fuel : ℕ) (m : StateMachine) (request : Request) (r : Run) {r' : Run}
    → reply_to_action fuel m request r ≡ ok (true, r')
    → Taken fuel m request r r'
unfolding reply_to_action get_status
reply_to_action-Taken fuel m request r e =
    elim (Option-cases (lookup request.target.action m.actions)) [
      | inl n ↦ absurd (cc (rw (n, reply_to_action) at e))
      | inr (act, n) ↦
          let (a, b) =
            waiting_status (lookup request.target.action r.session.status)
              (deliver fuel m act request r) r (rw (n, reply_to_action) at e) in
          (a, (act, n, b))
    ]

-- A reply to a session that has started is taken only by an action that exists and is waiting, and
-- only at level 0 or at the current level of the session: so it was where `execute` answers yes.
pub reply_request-Taken :
    (fuel : ℕ) (m : StateMachine) (request : Request) (r : Run) {r' : Run}
    → is_fresh r.session ≡ false
    → request.target.target ≡ Target.reply
    → execute fuel m request r ≡ ok (true, r')
    → (((request.target.execution_level == 0)
          || (request.target.execution_level == r.session.current_execution_level))
        ≡ true)
      × Taken fuel m request (started request r) r'
unfolding dispatch_request
reply_request-Taken fuel m request r {r'} h t e =
    let lvl = request.target.execution_level in
    let (a, b) =
      gate (lvl == 0) (lvl == (push_request request r.session).current_execution_level)
        (sym (execute-as Target.reply fuel m request r h t) ∙ e) in
    (subst (λ n. ((lvl == 0) || (lvl == n)) ≡ true) (pushed-level request r.session) a, b)
  where
    gate :
        (c d : Bool)
        → (if c
            then reply_to_action fuel m request (started request r)
            else if d
            then reply_to_action fuel m request (started request r)
            else ok (false, started request r))
          ≡ ok (true, r')
        → ((c || d) ≡ true) × Taken fuel m request (started request r) r'
    gate true d e = (refl, reply_to_action-Taken fuel m request (started request r) e)
    gate false true e = (refl, reply_to_action-Taken fuel m request (started request r) e)
    gate false false e = absurd (cc)

reply_to_action-waiting :
    (fuel : ℕ) (m : StateMachine) (request : Request) (r : Run) (act : Action)
    → lookup request.target.action m.actions ≡ some act
    → lookup request.target.action r.session.status ≡ some waiting
    → reply_to_action fuel m request r ≡ deliver fuel m act request r
unfolding reply_to_action get_status
reply_to_action-waiting fuel m request r act n w = rw (n, reply_to_action) (rw w)

at_level :
    {A : Type 0} (c d : Bool) (x y : A) → d ≡ true → (if c then x else if d then x else y) ≡ x
at_level true d x y h = refl
at_level false d x y h = rw h

-- Where the reply to a request that an action prepared goes.
abbrev Addressed : ActionData → Session → Request → Type 0
Addressed a s sync =
    (sync.reply.target ≡ Target.reply)
    × (sync.reply.action ≡ a.action_id)
    × (sync.reply.execution_level ≡ s.current_execution_level)

pub prepare-Addressed :
    (a : ActionData) (s : Session) (q : Request) {sync : Request}
    → prepare_sync_request a s q ≡ ok sync
    → Addressed a s sync
unfolding prepare_sync_request
prepare-Addressed a s q p =
    let (original, o, e) = >>=-eq-ok (deref s.request) _ p in
    subst (Addressed a s) (ok_injective e) (refl, refl, refl)

-- The reply to a request that a waiting action prepared goes back to that action, as long as the
-- session has started and is still at the level at which the request was prepared.
pub sync_request-answered :
    (fuel : ℕ) (m : StateMachine) (act : Action) (q sync : Request) (s : Session) (r : Run)
    → is_fresh r.session ≡ false
    → prepare_sync_request act.fields s q ≡ ok sync
    → lookup act.fields.action_id m.actions ≡ some act
    → lookup act.fields.action_id r.session.status ≡ some waiting
    → r.session.current_execution_level ≡ s.current_execution_level
    → execute fuel m (create_reply sync) r
      ≡ deliver fuel m act (create_reply sync) (started (create_reply sync) r)
unfolding create_reply dispatch_request
sync_request-answered fuel m act q sync s r h p n w l =
    let (t, i, v) = prepare-Addressed act.fields s q p in
    let back = create_reply sync in
    execute-as Target.reply fuel m back r h t
    ∙ at_level (sync.reply.execution_level == 0)
        (sync.reply.execution_level == (push_request back r.session).current_execution_level) _ _
        ((==_iff sync.reply.execution_level (push_request back r.session).current_execution_level).1
          (v ∙ sym (pushed-level back r.session ∙ l)))
    ∙ reply_to_action-waiting fuel m back (started back r) act (ap (λ j. lookup j m.actions) i ∙ n)
        (ap (lookup sync.reply.action) (pushed-status back r.session)
          ∙ ap (λ j. lookup j r.session.status) i
          ∙ w)
