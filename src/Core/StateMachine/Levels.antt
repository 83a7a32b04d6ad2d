-- ===== src/Core/StateMachine/Levels.antt =====
-- The level of a session (core/session.cpp), which each switch to another flow raises
-- (core/action_wrappers.cpp), and the replies that come after a switch (core/state_machine.cpp).
use libworkflow.Prelude.{
  ℕ, zero, suc, ◌+◌, ◌%◌, ◌^◌, ◌<◌, ◌≡◌, ◌≢◌, ◌∙◌, Bool, false, arith, if◌then◌else◌, ◌==◌, ==_iff,
  false_of_not,
}
use libworkflow.Prelude.Outcome.{ok}
use libworkflow.Core.Target
use libworkflow.Core.Request.{Request, create_reply}
use libworkflow.Core.Session.{Session, push_request, up_current_execution_level}
use libworkflow.Core.Action.Contract.{ActionData}
use libworkflow.Core.Action.Results.{prepare_sync_request}
use libworkflow.Core.StateMachine.Layout.{StateMachine}
use libworkflow.Core.StateMachine.Execution.{Run}
use libworkflow.Core.StateMachine.Entry.{execute, dispatch_request, is_fresh}
use libworkflow.Core.StateMachine.Arrivals.{started, execute-as, pushed-level, prepare-Addressed}

-- The session after a number of switches.
abbrev pub switches : ℕ → Session → Session
switches zero s = s
switches (suc n) s = up_current_execution_level (switches n s)

level-switches :
    (n : ℕ) (s : Session)
    → s.current_execution_level < 2 ^ 32
    → (switches n s).current_execution_level ≡ (s.current_execution_level + n) % 2 ^ 32
unfolding up_current_execution_level
level-switches zero s small = omega arith
level-switches (suc n) s small = omega (arith, level-switches n s small)

no_level :
    {A : Type 0} (c d : Bool) (x y : A)
    → c ≡ false
    → d ≡ false
    → (if c then x else if d then x else y) ≡ y
no_level c d x y h k = rw (h, k)

different : (x y : ℕ) → x ≢ y → (x == y) ≡ false
different x y h = false_of_not (x == y) (λ t. h ((==_iff x y).0 t))

-- The reply to a request that an action prepared, which arrives when the session has since switched
-- flow at least once and less than 2 ^ 32 times, is recorded in the session and does nothing else,
-- where the level of the session was not 0 when the request was prepared: the counter of the level
-- wraps around, but not so far.
pub late_reply-ignored :
    (n fuel : ℕ) (m : StateMachine) (a : ActionData) (s : Session) (req : Request) {sync : Request}
    (r : Run)
    → 0 < n
    → n < 2 ^ 32
    → 0 < s.current_execution_level
    → s.current_execution_level < 2 ^ 32
    → prepare_sync_request a s req ≡ ok sync
    → r.session.current_execution_level ≡ (switches n s).current_execution_level
    → is_fresh r.session ≡ false
    → execute fuel m (create_reply sync) r ≡ ok (false, started (create_reply sync) r)
unfolding dispatch_request create_reply
late_reply-ignored n fuel m a s req {sync} r some_switch few positive small prepared later begun =
    let (t, i, v) = prepare-Addressed a s req prepared in
    let back = create_reply sync in
    let now = (push_request back r.session).current_execution_level in
    let came : now ≡ (s.current_execution_level + n) % 2 ^ 32 =
      pushed-level back r.session ∙ later ∙ level-switches n s small in
    execute-as Target.reply fuel m back r begun t
    ∙ no_level (sync.reply.execution_level == 0) (sync.reply.execution_level == now) _ _
        (different sync.reply.execution_level 0 (λ e. omega (arith, e, v, positive)))
        (different sync.reply.execution_level now
          (λ e. omega (arith, e, v, came, some_switch, few, small)))
