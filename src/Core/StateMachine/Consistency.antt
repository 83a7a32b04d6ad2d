-- ===== src/Core/StateMachine/Consistency.antt =====
-- The status of an action and the sets of planned and pending actions agree, before and after
-- `bindResults`.
use libworkflow.Prelude.{
  String, ◌≡◌, subst, ◌⊎◌, inl, inr, true, false, Option, none, some, List, [], ◌∷◌, arith,
  Option-cases, false_of_not,
}
use libworkflow.Prelude.Int.{ℤ, eqb_ℤ, eqb_ℤ_iff}
use libworkflow.Prelude.IdSet.{mem, mem-insert, mem-erase}
use libworkflow.Prelude.Key.{int_key, string_key}
use libworkflow.Prelude.Map.{lookup, lookup-insert}
use libworkflow.Prelude.Outcome.{ok, >>=-eq-ok, ok_injective}
use libworkflow.Core.Context.{Context}
use libworkflow.Core.Step
use libworkflow.Core.Bindings.{OutputBinding}
use libworkflow.Core.Session.{
  Session, ExecutionStatus, unplanned, pending, planned, skipped, set_status, set_input, get_output,
}
use libworkflow.Core.Action.Wrapper.{Action}
use libworkflow.Core.StateMachine.Layout.{StateMachine, list_at}
use libworkflow.Core.StateMachine.Schedule.{
  plan, pend, remove_from_next, remove_from_pending, place, bind_result, bind_results_loop,
  bind_results,
}
use libworkflow.Core.StateMachine.Placement.{place-cases, add_to_next-ok}

-- What is in the set of planned actions has the status `Planned`, what is in the other `Pending`.
pub record IsConsistent (s : Session) : Type 0 where
  pub next_planned : (id : ℤ) → mem id s.nexts ≡ true → lookup id s.status ≡ some planned
  pub waits_pending : (id : ℤ) → mem id s.pendings ≡ true → lookup id s.status ≡ some pending

out-IsConsistent :
    (s : Session) (to : ℤ) (e : ExecutionStatus)
    → IsConsistent s
    → IsConsistent (set_status to e (remove_from_pending to (remove_from_next to s)))
unfolding remove_from_next remove_from_pending set_status
out-IsConsistent s to e c = record {
  next_planned = λ id h. ground (
    arith,
    c.next_planned id,
    eqb_ℤ_iff to id,
    lookup-insert to id e s.status,
    mem-erase to id s.nexts,
    h,
  );
  waits_pending = λ id h. ground (
    arith,
    c.waits_pending id,
    eqb_ℤ_iff to id,
    lookup-insert to id e s.status,
    mem-erase to id s.pendings,
    h,
  );
}

plan-IsConsistent :
    (s : Session) (to : ℤ) → IsConsistent s → IsConsistent (plan to (remove_from_pending to s))
unfolding plan remove_from_pending
plan-IsConsistent s to c = record {
  next_planned = λ id h. ground (
    arith,
    c.next_planned id,
    eqb_ℤ_iff to id,
    lookup-insert to id planned s.status,
    mem-insert to id s.nexts,
    h,
  );
  waits_pending = λ id h. ground (
    arith,
    c.waits_pending id,
    eqb_ℤ_iff to id,
    lookup-insert to id planned s.status,
    mem-erase to id s.pendings,
    h,
  );
}

pend-IsConsistent :
    (s : Session) (to : ℤ) → IsConsistent s → IsConsistent (pend to (remove_from_next to s))
unfolding pend remove_from_next
pend-IsConsistent s to c = record {
  next_planned = λ id h. ground (
    arith,
    c.next_planned id,
    eqb_ℤ_iff to id,
    lookup-insert to id pending s.status,
    mem-erase to id s.nexts,
    h,
  );
  waits_pending = λ id h. ground (
    arith,
    c.waits_pending id,
    eqb_ℤ_iff to id,
    lookup-insert to id pending s.status,
    mem-insert to id s.pendings,
    h,
  );
}

-- `Die` is planned without being taken out of the pending actions: it must not be one.
die-IsConsistent :
    (s : Session) (to : ℤ) → mem to s.pendings ≡ false → IsConsistent s → IsConsistent (plan to s)
unfolding plan
die-IsConsistent s to n c = record {
  next_planned = λ id h. ground (
    arith,
    c.next_planned id,
    eqb_ℤ_iff to id,
    lookup-insert to id planned s.status,
    mem-insert to id s.nexts,
    h,
  );
  waits_pending = λ id h.
      ground
        (arith, c.waits_pending id, eqb_ℤ_iff to id, lookup-insert to id planned s.status, h, n);
}

place-IsConsistent :
    (m : StateMachine) (act : Action) (to : ℤ) (s : Session) {s' : Session}
    → IsConsistent s
    → place m act to s ≡ ok s'
    → IsConsistent s'
place-IsConsistent m act to s c e = elim (place-cases m act to s e) [
  | inl (k, q) ↦ subst IsConsistent q (out-IsConsistent s to skipped c)
  | inr (inl (k, r, q)) ↦ subst IsConsistent q (plan-IsConsistent s to c)
  | inr (inr (inl (k, r, p, q))) ↦ subst IsConsistent q (pend-IsConsistent s to c)
  | inr (inr (inr (k, p, q))) ↦ subst IsConsistent q (out-IsConsistent s to unplanned c)
]

-- `Die` is not pending, and stays so as long as it is no action.
pub record NoDie (m : StateMachine) (s : Session) : Type 0 where
  pub no_action : lookup Step.die m.actions ≡ none
  pub not_pending : mem Step.die s.pendings ≡ false

place-pendings :
    (m : StateMachine) (act : Action) (to : ℤ) (s : Session) {s' : Session}
    → eqb_ℤ to Step.die ≡ false
    → mem Step.die s.pendings ≡ false
    → place m act to s ≡ ok s'
    → mem Step.die s'.pendings ≡ false
unfolding set_status plan pend remove_from_next remove_from_pending
place-pendings m act to s d n e = ground (
  arith,
  place-cases m act to s e,
  mem-erase to Step.die s.pendings,
  mem-insert to Step.die s.pendings,
)

set_input-IsConsistent :
    (s : Session) (to : ℤ) (name : String) (v : Option Context)
    → IsConsistent s
    → IsConsistent (set_input to name v s)
unfolding set_input
set_input-IsConsistent s to name v c = record {
  next_planned = c.next_planned;
  waits_pending = c.waits_pending;
}

abbrev given_input : ℤ → OutputBinding → Session → Session
given_input id b s =
    set_input b.to_action_id b.to_action_input (get_output id b.from_action_output s) s

-- A binding leads to an action, to the end, or nowhere.
pub bind_result-cases :
    (m : StateMachine) (id : ℤ) (b : OutputBinding) (s : Session) {s' : Session}
    → bind_result m id b s ≡ ok s'
    → ((act : Action) × (lookup b.to_action_id m.actions ≡ some act)
        × (place m act b.to_action_id (given_input id b s) ≡ ok s'))
      ⊎ ((b.to_action_id ≡ Step.die) × (plan b.to_action_id s ≡ s'))
      ⊎ (s ≡ s')
unfolding bind_result
bind_result-cases m id b s {s'} e = elim (Option-cases (lookup b.to_action_id m.actions)) [
  | inl absent ↦ ground (
    arith,
    absent,
    eqb_ℤ_iff b.to_action_id Step.die,
    add_to_next-ok m b.to_action_id s {s' = s'},
  )
  | inr (act, present) ↦ inl (act, present, ground (arith, present))
]

abbrev Keeps : StateMachine → Session → Type 0
Keeps m s = NoDie m s × IsConsistent s

bind_result-Keeps :
    (m : StateMachine) (id : ℤ) (b : OutputBinding) (s : Session) {s' : Session}
    → Keeps m s
    → bind_result m id b s ≡ ok s'
    → Keeps m s'
unfolding set_input
bind_result-Keeps m id b s {s'} (d, c) e = elim (bind_result-cases m id b s e) [
  | inl (act, present, p) ↦ (
    record {
      no_action = d.no_action;
      not_pending =
          place-pendings m act b.to_action_id (given_input id b s)
            (false_of_not (eqb_ℤ b.to_action_id Step.die)
              (λ t. cc ((eqb_ℤ_iff b.to_action_id Step.die).0 t, present, d.no_action)))
            d.not_pending p;
    },
    place-IsConsistent m act b.to_action_id (given_input id b s)
        (set_input-IsConsistent s b.to_action_id b.to_action_input
          (get_output id b.from_action_output s) c)
        p,
  )
  | inr (inl (t, q)) ↦ subst (Keeps m) q (
    record { no_action = d.no_action; not_pending = unfold plan set_status in d.not_pending },
    die-IsConsistent s b.to_action_id (rw t d.not_pending) c,
  )
  | inr (inr q) ↦ subst (Keeps m) q (d, c)
]

bind_results_loop-Keeps :
    (m : StateMachine) (id : ℤ) (bs : List OutputBinding) (s : Session) {s' : Session}
    → Keeps m s
    → bind_results_loop m id bs s ≡ ok s'
    → Keeps m s'
unfolding bind_results_loop
bind_results_loop-Keeps m id [] s k e = subst (Keeps m) (ok_injective e) k
bind_results_loop-Keeps m id (b ∷ bs) s k e =
    let (t, one, rest) = >>=-eq-ok (bind_result m id b s) (bind_results_loop m id bs) e in
    bind_results_loop-Keeps m id bs t (bind_result-Keeps m id b s k one) rest

-- `bindResults` keeps the status map and the two sets in agreement, in a machine where `Die` is no
-- action and is not pending.
pub bind_results-IsConsistent :
    (m : StateMachine) (id : ℤ) (s : Session) {s' : Session}
    → NoDie m s
    → IsConsistent s
    → bind_results m id s ≡ ok s'
    → IsConsistent s'
unfolding bind_results
bind_results-IsConsistent m id s d c e =
    (bind_results_loop-Keeps m id (list_at id m.outputs) s (d, c) e).1
