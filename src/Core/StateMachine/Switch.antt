-- ===== src/Core/StateMachine/Switch.antt =====
-- What the switch to the interrupt, error or cleanup flow leaves of a session: `reset`, as
-- `executeAction` calls it (core/state_machine.cpp).
use libworkflow.Prelude.{◌≡◌, refl, true, some, List, [], ◌∷◌, arith, if◌then◌else◌, is_some}
use libworkflow.Prelude.Int.{ℤ, eqb_ℤ_iff}
use libworkflow.Prelude.Key.{int_key, string_key}
use libworkflow.Prelude.Map.{Map, lookup, insert, lookup-insert}
use libworkflow.Prelude.IdSet
use libworkflow.Core.Session.{Session, ExecutionStatus, unplanned, planned, set_status}
use libworkflow.Core.Action.Wrapper.{Action}
use libworkflow.Core.StateMachine.Layout.{StateMachine}
use libworkflow.Core.StateMachine.Schedule.{remove_from_pending, remove_from_next}
use libworkflow.Core.StateMachine.Execution.{mark_unplanned, reset, prepare_session, is_switch}

-- The map of statuses after `mark_unplanned`.
unfoldable pub marks : Map ℤ Action → Map ℤ ExecutionStatus → Map ℤ ExecutionStatus
marks [] st = st
marks ((id, a) ∷ rest) st = marks rest (insert id unplanned st)

mark_unplanned-marks :
    (acts : Map ℤ Action) (s : Session)
    → mark_unplanned acts s ≡ record s { status = marks acts s.status }
unfolding mark_unplanned marks set_status
mark_unplanned-marks [] s = refl
mark_unplanned-marks ((id, a) ∷ rest) s = mark_unplanned-marks rest (set_status id unplanned s)

lookup-marks :
    (acts : Map ℤ Action) (st : Map ℤ ExecutionStatus) (id : ℤ)
    → lookup id (marks acts st)
      ≡ (if is_some (lookup id acts) then some unplanned else lookup id st)
unfolding marks lookup
lookup-marks [] st id = refl
lookup-marks ((i, a) ∷ rest) st id = ground (
  arith,
  eqb_ℤ_iff i id,
  lookup-marks rest (insert i unplanned st) id,
  lookup-insert i id unplanned st,
)

pub reset-marks :
    (m : StateMachine) (s : Session)
    → reset m s ≡ record s { status = marks m.actions []; nexts = []; pendings = [] }
unfolding reset
reset-marks m s =
    mark_unplanned-marks m.actions (record s { status = []; nexts = []; pendings = [] })

-- What the switch to a special flow leaves of a session.
pub record Switched (m : StateMachine) (s t : Session) : Type 0 where
  pub no_nexts : t.nexts ≡ []
  pub no_pendings : t.pendings ≡ []
  pub same_request : t.request ≡ s.request
  pub same_requests : t.requests ≡ s.requests
  pub same_inputs : t.inputs ≡ s.inputs
  pub same_outputs : t.outputs ≡ s.outputs
  pub marked : (i : ℤ) → is_some (lookup i m.actions) ≡ true → is_some (lookup i t.status) ≡ true

reset-Switched :
    (m : StateMachine) (id : ℤ) (s : Session) (ns ps : List ℤ)
    → Switched m s (set_status id planned (reset m (record s { nexts = ns; pendings = ps })))
unfolding set_status
reset-Switched m id s ns ps = rw (reset-marks m (record s { nexts = ns; pendings = ps })) (record {
  no_nexts = refl;
  no_pendings = refl;
  same_request = refl;
  same_requests = refl;
  same_inputs = refl;
  same_outputs = refl;
  marked = λ i h. ground (
    arith,
    h,
    lookup-marks m.actions [] i,
    lookup-insert id i planned (marks m.actions []),
    eqb_ℤ_iff id i,
  );
})

pub prepare-Switched :
    (m : StateMachine) (id : ℤ) (s : Session)
    → is_switch id ≡ true
    → Switched m s (prepare_session m id s)
unfolding prepare_session remove_from_next remove_from_pending
prepare-Switched m id s h =
    rw h (reset-Switched m id s (IdSet.erase id s.nexts) (IdSet.erase id s.pendings))
