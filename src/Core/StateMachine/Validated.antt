-- ===== src/Core/StateMachine/Validated.antt =====
-- What a machine that `validate` accepts can rely on (core/state_machine.cpp).
use libworkflow.Prelude.{
  ◌≡◌, refl, sym, ap, String, Bool, true, false, ◌||◌, Option, none, some, List, [], ◌∷◌, arith,
  if◌then◌else◌, is_some, Option-cases, inl, inr,
}
use libworkflow.Prelude.Int.{ℤ, eqb_ℤ}
use libworkflow.Prelude.Key.{int_key}
use libworkflow.Prelude.Map.{Map, lookup, has}
use libworkflow.Prelude.Outcome.{ok, >>=-eq-ok, ok_injective}
use libworkflow.Core.Bindings.{InputBinding, OutputBinding}
use libworkflow.Core.Step
use libworkflow.Core.Session.{Session}
use libworkflow.Core.StateMachine.Layout.{StateMachine}
use libworkflow.Core.StateMachine.Entry.{plan_starter, plan_starters}
use libworkflow.Core.StateMachine.Validation.{
  Problem, no_starter, validate, report, starting_problems, all_binding_problems, binding_problems,
  binding_problem, note,
}
use libworkflow.Tools.ErrorReport.{is_set, set_error, empty_report}

abbrev pub StartersKnown : StateMachine → List InputBinding → Type 0
StartersKnown m [] = Unit {0}
StartersKnown m (b ∷ bs) = (is_some (lookup b.action_id m.actions) ≡ true) × StartersKnown m bs

-- The binding leads from an action to an action or to `Die`.
abbrev pub Leads : StateMachine → OutputBinding → Type 0
Leads m b =
    (is_some (lookup b.from_action_id m.actions) ≡ true)
    × ((is_some (lookup b.to_action_id m.actions) || eqb_ℤ b.to_action_id Step.die) ≡ true)

abbrev pub AllLead : StateMachine → List OutputBinding → Type 0
AllLead m [] = Unit {0}
AllLead m (b ∷ bs) = Leads m b × AllLead m bs

abbrev pub EveryLeads : StateMachine → Map ℤ (List OutputBinding) → Type 0
EveryLeads m [] = Unit {0}
EveryLeads m ((id, bs) ∷ rest) = AllLead m bs × EveryLeads m rest

no_report :
    (describe : Problem → String) (ps : List Problem)
    → is_set (report describe ps) ≡ false
    → ps ≡ []
unfolding is_set report set_error empty_report
no_report describe [] e = refl
no_report describe (p ∷ ps) e = absurd (cc (e))

no_problem :
    (c : Bool) (p : Problem) (rest : List Problem)
    → (if c then rest else p ∷ rest) ≡ []
    → (c ≡ true) × (rest ≡ [])
no_problem true p rest e = (refl, e)
no_problem false p rest e = absurd (cc (e))

starting-StartersKnown :
    (m : StateMachine) (bs : List InputBinding) (after : List Problem)
    → starting_problems m bs after ≡ []
    → StartersKnown m bs × (after ≡ [])
unfolding starting_problems
starting-StartersKnown m [] after e = (tt, e)
starting-StartersKnown m (b ∷ bs) after e =
    let (a, r) =
      no_problem (has b.action_id m.actions) (no_starter b) (starting_problems m bs after) e in
    let (k, z) = starting-StartersKnown m bs after r in ((a, k), z)

binding-Leads : (m : StateMachine) (b : OutputBinding) → binding_problem m b ≡ none → Leads m b
unfolding binding_problem
binding-Leads m b e = ground (arith, e)

no_note : (o : Option Problem) (ps : List Problem) → note o ps ≡ [] → (o ≡ none) × (ps ≡ [])
no_note none ps e = (refl, e)
no_note (some p) ps e = absurd (cc (e))

bindings-AllLead :
    (m : StateMachine) (bs : List OutputBinding) (after : List Problem)
    → binding_problems m bs after ≡ []
    → AllLead m bs × (after ≡ [])
unfolding binding_problems
bindings-AllLead m [] after e = (tt, e)
bindings-AllLead m (b ∷ bs) after e =
    let (a, r) = no_note (binding_problem m b) (binding_problems m bs after) e in
    let (k, z) = bindings-AllLead m bs after r in ((binding-Leads m b a, k), z)

all-EveryLeads :
    (m : StateMachine) (outs : Map ℤ (List OutputBinding))
    → all_binding_problems m outs ≡ []
    → EveryLeads m outs
unfolding all_binding_problems
all-EveryLeads m [] e = tt
all-EveryLeads m ((id, bs) ∷ rest) e =
    let (a, r) = bindings-AllLead m bs (all_binding_problems m rest) e in
    (a, all-EveryLeads m rest r)

-- In a machine that `validate` accepts, every input starts an action, and every binding leads from an
-- action to an action or to `Die`.
pub validate-EveryLeads :
    (describe : Problem → String) (m : StateMachine)
    → is_set (validate describe m) ≡ false
    → StartersKnown m m.starters × EveryLeads m m.outputs
unfolding validate
validate-EveryLeads describe m e =
    let (k, z) =
      starting-StartersKnown m m.starters (all_binding_problems m m.outputs)
        (no_report describe _ e) in
    (k, all-EveryLeads m m.outputs z)

plan_starters_accept :
    (m : StateMachine) (bs : List InputBinding) (s : Session) {p : Session × Bool}
    → StartersKnown m bs
    → plan_starters m bs s ≡ ok p
    → p.1 ≡ true
unfolding plan_starters
plan_starters_accept m [] s k e = ap (λ p. p.1) (ok_injective (sym e))
plan_starters_accept m (b ∷ bs) s (h, k) e = elim (Option-cases (lookup b.action_id m.actions)) [
  | inl n ↦ absurd (cc (h, n))
  | inr (act, n) ↦
      let (t, one, two) =
        >>=-eq-ok (plan_starter m act b.action_id s) _ (rw (n, plan_starters) at e) in
      plan_starters_accept m bs t k two
]

-- In a machine that `validate` accepts, the first call never gives up for a starting action that does
-- not exist.
pub validate-plan_starters :
    (describe : Problem → String) (m : StateMachine) (s : Session) {p : Session × Bool}
    → is_set (validate describe m) ≡ false
    → plan_starters m m.starters s ≡ ok p
    → p.1 ≡ true
validate-plan_starters describe m s v e =
    plan_starters_accept m m.starters s (validate-EveryLeads describe m v).0 e
