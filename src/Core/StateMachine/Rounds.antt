-- ===== src/Core/StateMachine/Rounds.antt =====
-- The rounds of `getNext`: they end, and each either answers or promotes a pending action
-- (core/state_machine.cpp).
use libworkflow.Prelude.{
  ℕ, zero, suc, ◌+◌, ◌≤◌, ◌<◌, ◌≡◌, refl, sym, ap, subst, ◌∙◌, ◌⊎◌, inl, inr, ◌≢◌, true, false,
  none, some, List, [], ◌∷◌, arith, length, if◌then◌else◌,
}
use libworkflow.Prelude.Int.{ℤ, eqb_ℤ, eqb_ℤ_iff}
use libworkflow.Prelude.IdSet
use libworkflow.Prelude.IdSet.{mem, mem-insert, mem-erase, length-erase-lt}
use libworkflow.Prelude.Key.{int_key}
use libworkflow.Prelude.Outcome.{Outcome, ok, fault, out_of_fuel, null_pointer, ok_injective}
use libworkflow.Core.Step
use libworkflow.Core.Session.{Session}
use libworkflow.Core.StateMachine.Layout.{StateMachine}
use libworkflow.Core.StateMachine.Schedule.{
  is_last_step, choose, plan, remove_from_pending, try_promote_pending, pick, answer, promote_or,
  Pick, get_next_fuel, get_next,
}

-- The entry that is chosen is one of the set's.
choose-mem : (a : ℤ) (s : List ℤ) → mem (choose (a ∷ s)) (a ∷ s) ≡ true
unfolding mem
choose-mem a [] = ground (arith, eqb_ℤ_iff a a)
choose-mem a (b ∷ s) = ground (arith, eqb_ℤ_iff a a, eqb_ℤ_iff b b, eqb_ℤ_iff a b)

choose-cases : (s : List ℤ) → (s ≡ []) ⊎ (mem (choose s) s ≡ true)
choose-cases [] = inl refl
choose-cases (a ∷ s) = inr (choose-mem a s)

abbrev pub promoted : Session → Session
promoted s = plan (choose s.pendings) (remove_from_pending (choose s.pendings) s)

-- `tryPromotePending` does nothing, moves the chosen pending action, or follows a null pointer.
pub try_promote-cases :
    (m : StateMachine) (s : Session)
    → ((choose s.pendings ≡ Step.nothing) × (try_promote_pending m s ≡ ok none))
      ⊎ ((mem (choose s.pendings) s.pendings ≡ true)
          × (try_promote_pending m s ≡ ok (some (promoted s))))
      ⊎ (try_promote_pending m s ≡ fault null_pointer)
unfolding try_promote_pending
try_promote-cases m s =
    ground (arith, eqb_ℤ_iff (choose s.pendings) Step.nothing, choose-cases s.pendings)

pub get_next_fuel_enough :
    (fuel : ℕ) (m : StateMachine) (s : Session)
    → length s.pendings < fuel
    → get_next_fuel fuel m s ≢ fault out_of_fuel
unfolding get_next_fuel plan remove_from_pending
get_next_fuel_enough zero m s h = elim h [ ]
get_next_fuel_enough (suc fuel) m s h = ground (
  arith,
  try_promote-cases m s,
  length-erase-lt (choose s.pendings) s.pendings,
  get_next_fuel_enough fuel m (promoted s),
)

-- `getNext` always comes back: one round more than there are pending actions is never used up.
pub get_next_ends : (m : StateMachine) (s : Session) → get_next m s ≢ fault out_of_fuel
unfolding get_next
get_next_ends m s = get_next_fuel_enough (suc (length s.pendings)) m s (omega arith)

-- How many of the identifiers are last steps.
abbrev pub weight : ℤ → ℕ
weight a = if is_last_step a then 1 else 0

abbrev pub last_steps : List ℤ → ℕ
last_steps [] = 0
last_steps (a ∷ s) = weight a + last_steps s

last_steps-insert : (a : ℤ) (s : List ℤ) → last_steps (IdSet.insert a s) ≤ last_steps s + weight a
unfolding IdSet.insert
last_steps-insert a [] = ground arith
last_steps-insert a (b ∷ s) = ground (arith, last_steps-insert a s)

last_steps-erase-le : (a : ℤ) (s : List ℤ) → last_steps (IdSet.erase a s) ≤ last_steps s
unfolding IdSet.erase
last_steps-erase-le a [] = ground arith
last_steps-erase-le a (b ∷ s) = ground (arith, last_steps-erase-le a s)

last_steps-erase :
    (a : ℤ) (s : List ℤ) → mem a s ≡ true → last_steps (IdSet.erase a s) + weight a ≤ last_steps s
unfolding IdSet.erase mem
last_steps-erase a [] h = ground arith
last_steps-erase a (b ∷ s) h =
    ground (arith, eqb_ℤ_iff b a, last_steps-erase a s, last_steps-erase-le a s)

-- At most one last step is planned or pending, and -1 is not among the pending ones.
pub record OneEnd (s : Session) : Type 0 where
  pub one_end : last_steps s.nexts + last_steps s.pendings ≤ 1
  pub real : mem Step.nothing s.pendings ≡ false

pub promoted-OneEnd :
    (s : Session) → mem (choose s.pendings) s.pendings ≡ true → OneEnd s → OneEnd (promoted s)
unfolding plan remove_from_pending
promoted-OneEnd s h v = ground (
  arith,
  last_steps-insert (choose s.pendings) s.nexts,
  last_steps-erase (choose s.pendings) s.pendings h,
  mem-erase (choose s.pendings) Step.nothing s.pendings,
)

pub no_choice : (s : List ℤ) → mem Step.nothing s ≡ false → choose s ≡ Step.nothing → s ≡ []
no_choice [] h e = refl
no_choice (a ∷ s) h e = absurd (cc (choose-mem a s, e, h))

pub pick-answer :
    (s : List ℤ) (a : ℤ) → last_steps s ≤ 1 → pick s ≡ answer a → is_last_step a ≡ false
unfolding pick eqb_ℤ
pick-answer [] a h e = cc
pick-answer (b ∷ []) a h e = ground arith
pick-answer (b ∷ c ∷ s) a h e = ground arith

pub pick-promote_or :
    (s : List ℤ) (a : ℤ) → pick s ≡ promote_or a → is_last_step a ≡ true → s ≡ a ∷ []
unfolding pick eqb_ℤ
pick-promote_or [] a e h = absurd (ground (arith, e))
pick-promote_or (b ∷ []) a e h = ground arith
pick-promote_or (b ∷ c ∷ s) a e h = ground arith

Pick-cases : (p : Pick) → ((a : ℤ) × (p ≡ answer a)) ⊎ ((a : ℤ) × (p ≡ promote_or a))
Pick-cases (answer a) = inl (a, refl)
Pick-cases (promote_or a) = inr (a, refl)

-- The rounds of a `getNext` that answers.
pub data Gets : Session → Session → ℤ → Type 0 where
  at_once : (s : Session) (a : ℤ) → pick s.nexts ≡ answer a → Gets s s a
  none_left :
      (s : Session) (a : ℤ)
      → pick s.nexts ≡ promote_or a
      → choose s.pendings ≡ Step.nothing
      → Gets s s a
  promote :
      (s : Session) (b : ℤ) {s' : Session} {a : ℤ}
      → pick s.nexts ≡ promote_or b
      → mem (choose s.pendings) s.pendings ≡ true
      → Gets (promoted s) s' a
      → Gets s s' a

abbrev pub gives : Session → ℤ → Outcome (Session × ℤ)
gives s a = ok (s, a)

Gets-same :
    (s : Session) {s' : Session} (b : ℤ) {a : ℤ} → Gets s s b → gives s b ≡ gives s' a → Gets s s' a
Gets-same s {s'} b {a} g e =
    let q : ◌≡◌ {A = Session × ℤ} (s, b) (s', a) = ok_injective e in
    subst (Gets s s') (ap (λ p. p.1) q) (subst (λ t. Gets s t b) (ap (λ p. p.0) q) g)

module _ (fuel : ℕ) (m : StateMachine) (s : Session) (b : ℤ) where
  answer_round : pick s.nexts ≡ answer b → get_next_fuel (suc fuel) m s ≡ gives s b
  unfolding get_next_fuel
  answer_round p = ground arith

  pub idle_round :
      pick s.nexts ≡ promote_or b
      → try_promote_pending m s ≡ ok none
      → get_next_fuel (suc fuel) m s ≡ gives s b
  unfolding get_next_fuel
  idle_round p t = ground arith

  pub promote_round :
      {s' : Session}
      → pick s.nexts ≡ promote_or b
      → try_promote_pending m s ≡ ok (some s')
      → get_next_fuel (suc fuel) m s ≡ get_next_fuel fuel m s'
  unfolding get_next_fuel
  promote_round p t = ground arith

  faulty_round :
      pick s.nexts ≡ promote_or b
      → try_promote_pending m s ≡ fault null_pointer
      → get_next_fuel (suc fuel) m s ≡ fault null_pointer
  unfolding get_next_fuel
  faulty_round p t = ground arith

pub get_next_fuel-Gets :
    (fuel : ℕ) (m : StateMachine) (s : Session) {s' : Session} {a : ℤ}
    → get_next_fuel fuel m s ≡ gives s' a
    → Gets s s' a
unfolding get_next_fuel
get_next_fuel-Gets zero m s e = absurd (cc)
get_next_fuel-Gets (suc fuel) m s {s'} {a} e = elim (Pick-cases (pick s.nexts)) [
  | inl (b, p) ↦ Gets-same s b (at_once s b p) (sym (answer_round fuel m s b p) ∙ e)
  | inr (b, p) ↦ elim (try_promote-cases m s) [
    | inl (c, t) ↦ Gets-same s b (none_left s b p c) (sym (idle_round fuel m s b p t) ∙ e)
    | inr (inl (c, t)) ↦
        promote s b p c
          (get_next_fuel-Gets fuel m (promoted s) (sym (promote_round fuel m s b p t) ∙ e))
    | inr (inr t) ↦ absurd (cc (faulty_round fuel m s b p t, e))
  ]
]

pub get_next-Gets :
    (m : StateMachine) (s : Session) {s' : Session} {a : ℤ}
    → get_next m s ≡ gives s' a
    → Gets s s' a
unfolding get_next
get_next-Gets m s e = get_next_fuel-Gets (suc (length s.pendings)) m s e
