-- ===== src/Core/Action/Checks.antt =====
-- What passing the checks of an action means (core/action.cpp).
use libworkflow.Prelude.{
  ◌≡◌, refl, subst, String, Bool, true, false, Option, none, some, [], ◌∷◌, ◌++◌, ◌⊎◌, inl, inr,
  arith, if◌then◌else◌, Bool-cases, ap, ◌∙◌,
}
use libworkflow.Prelude.Int.{ℤ}
use libworkflow.Prelude.Key.{string_key, int_key}
use libworkflow.Prelude.Map.{Map}
use libworkflow.Prelude.Outcome.{Outcome, ok, >>=-eq-ok}
use libworkflow.Core.Context.{Context}
use libworkflow.Core.Session.{Session, get_input, get_output}
use libworkflow.Core.Action.Contract.{
  ActionData, PutDefinition, check_input, check_inputs_loop, check_inputs, check_output,
  check_outputs_loop, go_on, accept, check_outputs,
}
use libworkflow.Tools.ErrorReport.{ErrorReport}

-- The definitions of a map, at any key.
abbrev pub Defined : PutDefinition → Map String PutDefinition → Type 0
Defined d [] = ⊥
Defined d ((key, e) ∷ ds) = (e ≡ d) ⊎ Defined d ds

abbrev pub Good : PutDefinition → Option Context → Type 0
Good d c = (x : Context) × (c ≡ some x) × (d.checker.check (some x) ≡ true)

check_input-Good :
    (a : ActionData) (d : PutDefinition) (c : Option Context) (er : ErrorReport) {er' : ErrorReport}
    → d.mandatory ≡ true
    → check_input a d c er ≡ ok (true, er')
    → Good d c
unfolding check_input
check_input-Good a d none er m h = absurd (ground (arith, m, h))
check_input-Good a d (some x) er m h =
    (x, refl, ground (arith, h, Bool-cases (d.checker.check (some x))))

passed :
    (p : Bool × ErrorReport) (rest : Outcome (Bool × ErrorReport)) {er' : ErrorReport}
    → (if p.0 then rest else ok (false, p.1)) ≡ ok (true, er')
    → (p.0 ≡ true) × (rest ≡ ok (true, er'))
passed (true, er) rest h = (refl, h)
passed (false, er) rest h = absurd (cc)

check_inputs_loop-Good :
    (a : ActionData) (ds : Map String PutDefinition) (s : Session) (er : ErrorReport)
    (d : PutDefinition) {er' : ErrorReport}
    → Defined d ds
    → d.mandatory ≡ true
    → check_inputs_loop a ds s er ≡ ok (true, er')
    → Good d (get_input a.action_id d.put_name s)
unfolding check_inputs_loop
check_inputs_loop-Good a [] s er d i m h = absurd i
check_inputs_loop-Good a ((key, e) ∷ ds) s er d i m h =
    let ((fine, er1), checked, goes_on) =
      >>=-eq-ok (check_input a e (get_input a.action_id e.put_name s) er) _ h in
    let (is_fine, rest) = passed (fine, er1) (check_inputs_loop a ds s er1) goes_on in
    elim i [
      | inl q ↦
          subst (λ f. f.mandatory ≡ true → Good f (get_input a.action_id f.put_name s)) q
            (λ n.
              check_input-Good a e (get_input a.action_id e.put_name s) er n
                (checked ∙ ap (λ c. ok (c, er1)) is_fine))
            m
      | inr j ↦ check_inputs_loop-Good a ds s er1 d j m rest
    ]

-- Where the inputs of an action pass their check, every mandatory one is there and has the type that
-- its definition asks for.
pub check_inputs-Good :
    (a : ActionData) (s : Session) (er : ErrorReport) (d : PutDefinition) {er' : ErrorReport}
    → Defined d a.inputs
    → d.mandatory ≡ true
    → check_inputs a s er ≡ ok (true, er')
    → Good d (get_input a.action_id d.put_name s)
unfolding check_inputs
check_inputs-Good a s er d i m h = check_inputs_loop-Good a a.inputs s er d i m h

-- The outputs of an action that the loop goes past.
abbrev pub PassedOver : ℤ → Session → Map String PutDefinition → Type 0
PassedOver id s [] = Unit {0}
PassedOver id s ((key, d) ∷ ds) =
    (check_output d (get_output id d.put_name s) ≡ go_on) × PassedOver id s ds

check_output-Good : (d : PutDefinition) (c : Option Context) → Good d c → check_output d c ≡ accept
unfolding check_output
check_output-Good d c (x, g, h) = rw (g, check_output) (rw h)

check_outputs_loop-stops :
    (a : ActionData) (before after : Map String PutDefinition) (key : String) (d : PutDefinition)
    (s : Session) (er : ErrorReport)
    → PassedOver a.action_id s before
    → Good d (get_output a.action_id d.put_name s)
    → check_outputs_loop a (before ++ (key, d) ∷ after) s er ≡ ok (true, er)
unfolding check_outputs_loop
check_outputs_loop-stops a [] after key d s er p g =
    rw (check_output-Good d (get_output a.action_id d.put_name s) g, check_outputs_loop)
check_outputs_loop-stops a ((k, e) ∷ before) after key d s er (p, ps) g =
    rw (p, check_outputs_loop) (check_outputs_loop-stops a before after key d s er ps g)

-- The check of the outputs stops at the first one that has the type its definition asks for: what
-- follows it is not looked at, mandatory or not.
pub check_outputs-stops :
    (a : ActionData) (before after : Map String PutDefinition) (key : String) (d : PutDefinition)
    (s : Session) (er : ErrorReport)
    → PassedOver a.action_id s before
    → Good d (get_output a.action_id d.put_name s)
    → check_outputs (record a { outputs = before ++ (key, d) ∷ after }) s er ≡ ok (true, er)
unfolding check_outputs
check_outputs-stops a before after key d s er p g =
    check_outputs_loop-stops (record a { outputs = before ++ (key, d) ∷ after }) before after key d
      s er p g
