-- ===== src/Core/StateMachine/Schedule.antt =====
-- Which action runs next: the planned and pending actions of a session.
-- A log line that follows a null pointer faults, since the loggers let every level through until
-- they are configured otherwise; the text of a log line is left out.
use libworkflow.Prelude.{
  ℕ, zero, suc, String, Bool, true, false, ◌||◌, Option, none, some, List, [], ◌∷◌, if◌then◌else◌,
  length,
}
use libworkflow.Prelude.Int.{ℤ, eqb_ℤ}
use libworkflow.Prelude.Key.{int_key, string_key}
use libworkflow.Prelude.Map.{Map, lookup}
use libworkflow.Prelude.IdSet
use libworkflow.Prelude.Outcome.{Outcome, ok, fault, out_of_fuel, deref, ◌>>=◌}
use libworkflow.Core.Context.{Context, is_skip}
use libworkflow.Core.Bindings.{OutputBinding}
use libworkflow.Core.Step
use libworkflow.Core.Session.{
  Session, ExecutionStatus, unplanned, pending, planned, skipped, done, get_status, set_status,
  set_input, get_output, row,
}
use libworkflow.Core.Action.Wrapper.{Action}
use libworkflow.Core.StateMachine.Layout.{StateMachine, list_at}
use libworkflow.Tools.ErrorReport.{empty_report}

abbrev pub is_done : ExecutionStatus → Bool
is_done done = true
is_done _ = false

-- `Finish`, `Cleanup` and `Die` wait for everything else.
abbrev pub is_last_step : ℤ → Bool
is_last_step id = eqb_ℤ id Step.finish || eqb_ℤ id Step.cleanup || eqb_ℤ id Step.die

unfoldable pub plan : ℤ → Session → Session
unfolding IdSet.insert set_status
plan id s = set_status id planned (record s { nexts = IdSet.insert id s.nexts })

unfoldable pub pend : ℤ → Session → Session
unfolding IdSet.insert set_status
pend id s = set_status id pending (record s { pendings = IdSet.insert id s.pendings })

unfoldable pub remove_from_next : ℤ → Session → Session
unfolding IdSet.erase
remove_from_next id s = record s { nexts = IdSet.erase id s.nexts }

unfoldable pub remove_from_pending : ℤ → Session → Session
unfolding IdSet.erase
remove_from_pending id s = record s { pendings = IdSet.erase id s.pendings }

-- `addToNext`: the log line follows the pointer to the action, unless that is `Die`.
unfoldable pub add_to_next : StateMachine → ℤ → Session → Outcome Session
unfolding plan
add_to_next m id s =
    if eqb_ℤ id Step.die
    then ok (plan id s)
    else deref (lookup id m.actions) >>= λ a. ok (plan id s)

unfoldable pub add_to_pending : StateMachine → ℤ → Session → Outcome Session
unfolding pend
add_to_pending m id s = deref (lookup id m.actions) >>= λ a. ok (pend id s)

-- The choice of `getNextPending` and of `getNext` among an ordered set: a last step gives way to
-- the entry after it.
abbrev pub choose : List ℤ → ℤ
choose [] = Step.nothing
choose (a ∷ []) = a
choose (a ∷ b ∷ rest) = if is_last_step a then b else a

unfoldable pub get_next_pending : Session → ℤ
get_next_pending s = choose s.pendings

-- `tryPromotePending`: `none` where nothing is pending.
unfoldable pub try_promote_pending : StateMachine → Session → Outcome (Option Session)
unfolding get_next_pending remove_from_pending add_to_next
try_promote_pending m s =
    let id = get_next_pending s in
    if eqb_ℤ id Step.nothing
    then ok none
    else (deref (lookup id m.actions) >>= λ a.
        add_to_next m id (remove_from_pending id s) >>= λ s'. ok (some s'))

-- What `getNext` does with the planned actions: it answers, or it turns to the pending ones first.
pub data Pick : Type 0 where
  answer : ℤ → Pick
  promote_or : ℤ → Pick

unfoldable pub pick : List ℤ → Pick
pick [] = promote_or Step.nothing
pick (a ∷ []) = if is_last_step a then promote_or a else answer a
pick (a ∷ b ∷ rest) = if is_last_step a then answer b else answer a

-- `getNext`. Each round promotes one pending action, so one more round than there are pending
-- actions is enough.
unfoldable pub get_next_fuel : ℕ → StateMachine → Session → Outcome (Session × ℤ)
unfolding pick try_promote_pending
get_next_fuel zero m s = fault out_of_fuel
get_next_fuel (suc fuel) m s = elim (pick s.nexts) [
  | answer a ↦ ok (s, a)
  | promote_or a ↦ try_promote_pending m s >>= λ promoted. elim promoted [
    | none ↦ ok (s, a)
    | some s' ↦ get_next_fuel fuel m s'
  ]
]

unfoldable pub get_next : StateMachine → Session → Outcome (Session × ℤ)
unfolding get_next_fuel
get_next m s = get_next_fuel (suc (length s.pendings)) m s

-- All actions that feed this one are done. A status that was never set throws, and the log line
-- about an action that is not done follows the pointer to it.
unfoldable pub all_done : StateMachine → Session → List ℤ → Outcome Bool
all_done m s [] = ok true
all_done m s (i ∷ is) = get_status i s >>= λ e.
    if is_done e then all_done m s is else deref (lookup i m.actions) >>= λ a. ok false

unfoldable pub can_execute_action : StateMachine → Session → Action → Outcome Bool
unfolding all_done
can_execute_action m s act = act.methods.check_inputs act.fields s empty_report >>= λ checked.
    if checked.0
    then (if (act.methods.can_perform act.fields s checked.1).0
        then all_done m s (list_at act.fields.action_id m.inputs_map)
        else ok false)
    else ok false

unfoldable pub can_pend_action : Session → Action → Outcome Bool
can_pend_action s act =
    act.methods.check_inputs act.fields s empty_report >>= λ checked. ok checked.0

abbrev pub any_skip : Map String (Option Context) → Bool
any_skip [] = false
any_skip ((name, c) ∷ cs) = is_skip c || any_skip cs

-- What becomes of an action whose input was just set.
unfoldable pub place : StateMachine → Action → ℤ → Session → Outcome Session
unfolding can_execute_action can_pend_action remove_from_next remove_from_pending add_to_next
    add_to_pending
place m act to s =
    if any_skip (row to s.inputs)
    then ok (set_status to skipped (remove_from_pending to (remove_from_next to s)))
    else can_execute_action m s act >>= λ able.
        if able
        then add_to_next m to (remove_from_pending to s)
        else can_pend_action s act >>= λ pends.
            if pends
            then add_to_pending m to (remove_from_next to s)
            else ok (set_status to unplanned (remove_from_pending to (remove_from_next to s)))

-- The body of the loop of `bindResults`.
unfoldable pub bind_result : StateMachine → ℤ → OutputBinding → Session → Outcome Session
unfolding place add_to_next
bind_result m id b s = elim (lookup b.to_action_id m.actions) [
  | some act ↦ deref (lookup id m.actions) >>= λ from.
      place m act b.to_action_id
        (set_input b.to_action_id b.to_action_input (get_output id b.from_action_output s) s)
  | none ↦ if eqb_ℤ b.to_action_id Step.die then add_to_next m b.to_action_id s else ok s
]

unfoldable pub bind_results_loop : StateMachine → ℤ → List OutputBinding → Session → Outcome Session
unfolding bind_result
bind_results_loop m id [] s = ok s
bind_results_loop m id (b ∷ bs) s = bind_result m id b s >>= λ s'. bind_results_loop m id bs s'

unfoldable pub bind_results : StateMachine → ℤ → Session → Outcome Session
unfolding bind_results_loop
bind_results m id s = bind_results_loop m id (list_at id m.outputs) s

-- `canExecuteFinish`: nothing is planned, pending or out for an answer, and one action that leads
-- to `Finish` is done.
unfoldable pub any_done : Session → List ℤ → Outcome Bool
any_done s [] = ok false
any_done s (i ∷ is) = get_status i s >>= λ e. if is_done e then ok true else any_done s is

abbrev pub nonempty {ℓ} : {A : Type ℓ} → List A → Bool
nonempty [] = false
nonempty (x ∷ xs) = true

unfoldable pub can_execute_finish : StateMachine → Session → Outcome Bool
unfolding any_done
can_execute_finish m s =
    if nonempty s.nexts
    then ok false
    else if nonempty s.pendings
    then ok false
    else if nonempty s.subqueries
    then ok false
    else any_done s (list_at Step.finish m.inputs_map)
