-- ===== src/Core/StateMachine/Placement.antt =====
-- What `bindResults` makes of the actions that a result leads to.
use libworkflow.Prelude.{
  ◌≡◌, refl, ap, ◌∙◌, if◌then◌else◌, subst, ◌⊎◌, inl, inr, Bool, true, false, some, List, [], ◌∷◌,
  arith,
}
use libworkflow.Prelude.Int.{ℤ, eqb_ℤ_iff}
use libworkflow.Prelude.IdSet.{mem, mem-insert, mem-erase}
use libworkflow.Prelude.Key.{int_key, string_key}
use libworkflow.Prelude.Map.{lookup, lookup-insert}
use libworkflow.Prelude.Outcome.{Outcome, ok, >>=-eq-ok}
use libworkflow.Core.Session.{
  Session, ExecutionStatus, unplanned, pending, planned, skipped, done, set_status, get_status, row,
}
use libworkflow.Core.Action.Wrapper.{Action}
use libworkflow.Core.StateMachine.Layout.{StateMachine, list_at}
use libworkflow.Core.StateMachine.Schedule.{
  plan, pend, remove_from_next, remove_from_pending, add_to_next, add_to_pending, all_done,
  can_execute_action, can_pend_action, any_skip, place,
}
use libworkflow.Tools.ErrorReport.{ErrorReport, empty_report}

-- Every one of the actions is done.
abbrev pub AllDone : Session → List ℤ → Type 0
AllDone s [] = Unit {0}
AllDone s (i ∷ is) = (lookup i s.status ≡ some done) × AllDone s is

pub all_done-AllDone :
    (m : StateMachine) (s : Session) (is : List ℤ) → all_done m s is ≡ ok true → AllDone s is
unfolding all_done get_status
all_done-AllDone m s [] e = tt
all_done-AllDone m s (i ∷ is) e = ground (arith, all_done-AllDone m s is)

pub all_done-not :
    (m : StateMachine) (s : Session) (is : List ℤ) → all_done m s is ≡ ok false → ¬ AllDone s is
unfolding all_done get_status
all_done-not m s [] e h = absurd (cc)
all_done-not m s (i ∷ is) e h = ground (arith, all_done-not m s is)

-- The action may run: its inputs fit its contract, it agrees, and all that feeds it is done.
pub record Ready (m : StateMachine) (s : Session) (act : Action) : Type 0 where
  pub checked : ErrorReport
  pub fit : act.methods.check_inputs act.fields s empty_report ≡ ok (true, checked)
  pub willing : (act.methods.can_perform act.fields s checked).0 ≡ true
  pub fed : AllDone s (list_at act.fields.action_id m.inputs_map)

both_true :
    (b c : Bool) (rest : Outcome Bool)
    → (if b then (if c then rest else ok false) else ok false) ≡ ok true
    → (b ≡ true) × ((c ≡ true) × (rest ≡ ok true))
both_true true true rest e = (refl, (refl, e))
both_true true false rest e = absurd (cc)
both_true false c rest e = absurd (cc)

can_execute-Ready :
    (m : StateMachine) (s : Session) (act : Action)
    → can_execute_action m s act ≡ ok true
    → Ready m s act
unfolding can_execute_action
can_execute-Ready m s act e =
    let ((fits, er), came, rest) =
      >>=-eq-ok (act.methods.check_inputs act.fields s empty_report) _ e in
    let (fits', (willing, fed)) =
      both_true fits (act.methods.can_perform act.fields s er).0 _ rest in
    record {
      checked = er;
      fit = came ∙ ap (λ b. ok (b, er)) fits';
      willing = willing;
      fed = all_done-AllDone m s (list_at act.fields.action_id m.inputs_map) fed;
    }

can_execute-not :
    (m : StateMachine) (s : Session) (act : Action)
    → can_execute_action m s act ≡ ok false
    → ¬ Ready m s act
unfolding can_execute_action
can_execute-not m s act e r =
    all_done-not m s (list_at act.fields.action_id m.inputs_map) (rw (r.fit, r.willing) at e) r.fed

-- Where an action stands in the plan of a session.
pub record Stands (s : Session) (id : ℤ) (e : ExecutionStatus) (next waits : Bool) : Type 0 where
  pub has_status : lookup id s.status ≡ some e
  pub in_nexts : mem id s.nexts ≡ next
  pub in_pendings : mem id s.pendings ≡ waits

-- The four fates of an action whose input was set: skipped by a `SkipCtx`, planned exactly if it is
-- ready, pending if only its inputs fit, and unplanned otherwise.
pub data Fate (m : StateMachine) (act : Action) (to : ℤ) (s s' : Session) : Type 0 where
  is_skipped :
      any_skip (row to s.inputs) ≡ true → Stands s' to skipped false false → Fate m act to s s'
  is_planned :
      any_skip (row to s.inputs) ≡ false
      → Ready m s act
      → Stands s' to planned true false
      → Fate m act to s s'
  is_pending :
      any_skip (row to s.inputs) ≡ false
      → ¬ Ready m s act
      → can_pend_action s act ≡ ok true
      → Stands s' to pending false true
      → Fate m act to s s'
  is_unplanned :
      any_skip (row to s.inputs) ≡ false
      → can_pend_action s act ≡ ok false
      → Stands s' to unplanned false false
      → Fate m act to s s'

Stands-planned :
    (s : Session) (to : ℤ) → Stands (plan to (remove_from_pending to s)) to planned true false
unfolding plan remove_from_pending
Stands-planned s to = ground (
  arith,
  eqb_ℤ_iff to to,
  lookup-insert to to planned s.status,
  mem-insert to to s.nexts,
  mem-erase to to s.pendings,
)

Stands-pending :
    (s : Session) (to : ℤ) → Stands (pend to (remove_from_next to s)) to pending false true
unfolding pend remove_from_next
Stands-pending s to = ground (
  arith,
  eqb_ℤ_iff to to,
  lookup-insert to to pending s.status,
  mem-erase to to s.nexts,
  mem-insert to to s.pendings,
)

Stands-out :
    (s : Session) (to : ℤ) (e : ExecutionStatus)
    → Stands (set_status to e (remove_from_pending to (remove_from_next to s))) to e false false
unfolding remove_from_next remove_from_pending set_status
Stands-out s to e = ground (
  arith,
  eqb_ℤ_iff to to,
  lookup-insert to to e s.status,
  mem-erase to to s.nexts,
  mem-erase to to s.pendings,
)

pub add_to_next-ok :
    (m : StateMachine) (id : ℤ) (s : Session) {s' : Session}
    → add_to_next m id s ≡ ok s'
    → plan id s ≡ s'
unfolding add_to_next
add_to_next-ok m id s e = ground arith

add_to_pending-ok :
    (m : StateMachine) (id : ℤ) (s : Session) {s' : Session}
    → add_to_pending m id s ≡ ok s'
    → pend id s ≡ s'
unfolding add_to_pending
add_to_pending-ok m id s e = ground arith

-- The fate of an action and the session that `place` leaves.
pub place-cases :
    (m : StateMachine) (act : Action) (to : ℤ) (s : Session) {s' : Session}
    → place m act to s ≡ ok s'
    → ((any_skip (row to s.inputs) ≡ true)
        × (set_status to skipped (remove_from_pending to (remove_from_next to s)) ≡ s'))
      ⊎ ((any_skip (row to s.inputs) ≡ false)
          × (can_execute_action m s act ≡ ok true)
          × (plan to (remove_from_pending to s) ≡ s'))
      ⊎ ((any_skip (row to s.inputs) ≡ false)
          × (can_execute_action m s act ≡ ok false)
          × (can_pend_action s act ≡ ok true)
          × (pend to (remove_from_next to s) ≡ s'))
      ⊎ ((any_skip (row to s.inputs) ≡ false)
          × (can_pend_action s act ≡ ok false)
          × (set_status to unplanned (remove_from_pending to (remove_from_next to s)) ≡ s'))
unfolding place
place-cases m act to s e = ground (
  arith,
  add_to_next-ok m to (remove_from_pending to s),
  add_to_pending-ok m to (remove_from_next to s),
)

-- Where `bindResults` gets through with an action, it skips, plans, pends or unplans it as its inputs
-- and its sources say, and the status and the two sets of the session agree about it.
pub place-Fate :
    (m : StateMachine) (act : Action) (to : ℤ) (s : Session) {s' : Session}
    → place m act to s ≡ ok s'
    → Fate m act to s s'
place-Fate m act to s {s'} e = elim (place-cases m act to s e) [
  | inl (k, q) ↦
      is_skipped k (subst (λ t. Stands t to skipped false false) q (Stands-out s to skipped))
  | inr (inl (k, r, q)) ↦
      is_planned k (can_execute-Ready m s act r)
        (subst (λ t. Stands t to planned true false) q (Stands-planned s to))
  | inr (inr (inl (k, r, p, q))) ↦
      is_pending k (can_execute-not m s act r) p
        (subst (λ t. Stands t to pending false true) q (Stands-pending s to))
  | inr (inr (inr (k, p, q))) ↦
      is_unplanned k p
        (subst (λ t. Stands t to unplanned false false) q (Stands-out s to unplanned))
]
